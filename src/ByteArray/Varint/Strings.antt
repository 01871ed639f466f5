-- ===== src/ByteArray/Varint/Strings.antt =====
-- Strings behind their length: reading back what was written.
use cpp_linux_server.Base.{
  ℕ, ◌+◌, ◌*◌, ◌%◌, ◌^◌, ◌<◌, ◌≡◌, refl, ap, sym, ◌∙◌, List, ◌++◌, length, drop, arith,
  append_assoc, length-append,
}
use cpp_linux_server.ByteArray.{ByteArray, M, ret, bind-ret, ◌>>=◌, ◌>>◌, write, read, set_position}
use cpp_linux_server.ByteArray.Stream.{Stream, IsValid, view, written}
use cpp_linux_server.ByteArray.Refines.{write-view}
use cpp_linux_server.ByteArray.Replay.{read_front, room_behind, rewind, written-written}
use cpp_linux_server.ByteArray.Fixed.{write_fuint16, write_fuint32, write_fuint64}
use cpp_linux_server.ByteArray.Fixed.{
  read_fuint16, read_fuint32, read_fuint64, write_fuint, read_fuint,
}
use cpp_linux_server.ByteArray.Fixed.RoundTrip.{wire, write_fuint-view, read_fuint_lem}
use cpp_linux_server.ByteArray.Varint.{
  write_string_f16, write_string_f32, write_string_f64, write_string_vint, read_string_f16,
  read_string_f32, read_string_f64, read_string_vint, write_uint64, read_uint64,
}
use cpp_linux_server.ByteArray.Varint.RoundTrip.{varint, varint_bytes_lem, read_varint_lem}

-- What a writer of a length does, and what its reader does at the same byte order.
abbrev Puts : List ℕ → M (Unit {0}) → ByteArray → Type 0
Puts enc wr ba =
    (ba' : ByteArray) × (wr ba ≡ ret tt ba') × IsValid ba' × (view ba' ≡ written enc (view ba))

abbrev Gets : List ℕ → M ℕ → ℕ → ByteArray → Type 0
Gets enc rd n ba =
    (b : ByteArray) (rest : List ℕ)
    → IsValid b
    → b.endian ≡ ba.endian
    → (view b).after ≡ enc ++ rest
    → (b' : ByteArray) × (rd b ≡ ret n b') × IsValid b' × ((view b').after ≡ rest)

-- `s` is written by `wr` and read back by `rd` from the position where it was put.
abbrev pub Survives : M (Unit {0}) → M (List ℕ) → List ℕ → ByteArray → Type 0
Survives wr rd s ba =
    (ba₁ : ByteArray) × (ba₂ : ByteArray) × (ba₃ : ByteArray) × (wr ba ≡ ret tt ba₁)
    × (set_position ba.position ba₁ ≡ ret tt ba₂)
    × (rd ba₂ ≡ ret s ba₃)

string-Survives :
    (enc s : List ℕ) (wr : M (Unit {0})) (rd : M ℕ) (ba : ByteArray)
    → IsValid ba
    → 0 < length s
    → Puts enc wr ba
    → Gets enc rd (length s) ba
    → Survives (wr >> write s) (rd >>= λ n. read n) s ba
string-Survives enc s wr rd ba v some (ba', w, v', p) gets =
    let (ba₁, w', v₁, p') = write-view s ba' v' in
    let both : view ba₁ ≡ written (enc ++ s) (view ba) =
      p' ∙ ap (λ (t : Stream). written s t) p ∙ written-written enc s (view ba) in
    let (ba₂, r) = rewind (enc ++ s) ba ba₁ v v₁ both in
    let rest : List ℕ = drop (length (enc ++ s)) (view ba).after in
    let (b, g, vb, a) =
      gets ba₂ (s ++ rest) r.valid r.endian_eq (r.after_eq ∙ append_assoc enc s rest) in
    let (ba₃, q, _) =
      read_front s rest (length s) b vb
        (room_behind b (s ++ rest) vb a (omega (arith, length-append {0} s rest))) refl a in
    (ba₁, ba₂, ba₃, bind-ret wr _ w ∙ w', r.seeks, bind-ret rd _ g ∙ q)

Puts-fixed :
    (w v : ℕ) (ba : ByteArray) → IsValid ba → Puts (wire w ba.endian v) (write_fuint w v) ba
Puts-fixed w v ba valid = write_fuint-view w v ba valid

Gets-fixed :
    (w v n : ℕ) (ba : ByteArray)
    → 0 < w
    → n < 256 ^ w
    → v ≡ n
    → Gets (wire w ba.endian v) (read_fuint w) n ba
Gets-fixed w v n ba some h same b rest valid e a =
    let here : (view b).after ≡ wire w b.endian n ++ rest =
      a ∙ ap (λ x. wire w x v ++ rest) (sym e) ∙ ap (λ (x : ℕ). wire w b.endian x ++ rest) same in
    let (b', r, t) = read_fuint_lem w n rest b valid some h here in (b', r, t.valid, t.after_eq)

-- On a valid array a string of 1 to 65535 bytes that writeStringF16 writes is read back by
-- readStringF16 from the position where it was put.
pub string_f16-roundtrip :
    (s : List ℕ) (ba : ByteArray)
    → IsValid ba
    → 0 < length s
    → length s < 2 ^ 16
    → Survives (write_string_f16 s) read_string_f16 s ba
unfolding write_string_f16 read_string_f16 write_fuint16 read_fuint16
string_f16-roundtrip s ba v some h =
    let n : ℕ = length s % 2 ^ 16 in
    string-Survives (wire 2 ba.endian n) s (write_fuint 2 n) (read_fuint 2) ba v some
      (Puts-fixed 2 n ba v) (Gets-fixed 2 n (length s) ba (omega arith) (omega arith) (omega arith))

pub string_f32-roundtrip :
    (s : List ℕ) (ba : ByteArray)
    → IsValid ba
    → 0 < length s
    → length s < 2 ^ 32
    → Survives (write_string_f32 s) read_string_f32 s ba
unfolding write_string_f32 read_string_f32 write_fuint32 read_fuint32
string_f32-roundtrip s ba v some h =
    let n : ℕ = length s % 2 ^ 32 in
    string-Survives (wire 4 ba.endian n) s (write_fuint 4 n) (read_fuint 4) ba v some
      (Puts-fixed 4 n ba v) (Gets-fixed 4 n (length s) ba (omega arith) (omega arith) (omega arith))

pub string_f64-roundtrip :
    (s : List ℕ) (ba : ByteArray)
    → IsValid ba
    → 0 < length s
    → length s < 2 ^ 64
    → Survives (write_string_f64 s) read_string_f64 s ba
unfolding write_string_f64 read_string_f64 write_fuint64 read_fuint64
string_f64-roundtrip s ba v some h =
    let n : ℕ = length s % 2 ^ 64 in
    string-Survives (wire 8 ba.endian n) s (write_fuint 8 n) (read_fuint 8) ba v some
      (Puts-fixed 8 n ba v) (Gets-fixed 8 n (length s) ba (omega arith) (omega arith) (omega arith))

Puts-varint :
    (v : ℕ) (ba : ByteArray) → v < 2 ^ 64 → IsValid ba → Puts (varint 9 v) (write_uint64 v) ba
unfolding write_uint64
Puts-varint v ba h valid =
    rw (varint_bytes_lem 9 v (omega arith)) (write-view (varint 9 v) ba valid)

Gets-varint : (v n : ℕ) (ba : ByteArray) → n < 2 ^ 64 → v ≡ n → Gets (varint 9 v) read_uint64 n ba
unfolding read_uint64
Gets-varint v n ba h same b rest valid e a =
    let (b', q, valid', after') =
      read_varint_lem 64 9 10 0 0 v rest b valid (omega arith) (omega arith) (omega arith)
        (omega arith) a in
    let value : 0 + v * 2 ^ 0 ≡ n = omega arith in
    (b', q ∙ ap (λ (x : ℕ). ret x b') value, valid', after')

-- On a valid array a string of at least one byte that writeStringVint writes is read back by
-- readStringVint from the position where it was put.
pub string_vint-roundtrip :
    (s : List ℕ) (ba : ByteArray)
    → IsValid ba
    → 0 < length s
    → length s < 2 ^ 64
    → Survives (write_string_vint s) read_string_vint s ba
unfolding write_string_vint read_string_vint
string_vint-roundtrip s ba v some h =
    let n : ℕ = length s % 2 ^ 64 in
    string-Survives (varint 9 n) s (write_uint64 n) read_uint64 ba v some
      (Puts-varint n ba (omega arith) v) (Gets-varint n (length s) ba h (omega arith))
