-- ===== src/ByteArray/Fixed/RoundTrip.antt =====
-- Fixed-width integers: the bytes on the wire, and reading back what was written.
use cpp_linux_server.Base.{
  ℕ, zero, suc, ◌+◌, ◌*◌, ◌/◌, ◌%◌, ◌^◌, ◌<◌, ◌≡◌, refl, ap, sym, ◌∙◌, List, [], ◌∷◌, ◌++◌, reverse,
  length, drop, arith, All, All-append, length-append,
}
use cpp_linux_server.ByteArray.{
  ByteArray, Endian, little_endian, big_endian, ret, return, read, bind-ret, set_position,
}
use cpp_linux_server.ByteArray.Stream.{IsValid, view, written}
use cpp_linux_server.ByteArray.Refines.{write-view}
use cpp_linux_server.ByteArray.Replay.{Took, read_front, replay, room_behind}
use cpp_linux_server.ByteArray.Fixed.{
  to_bytes, of_bytes, byteswap, to_order, write_fuint, read_fuint, write_fuint8, read_fuint8,
}
use mathlib.Core.List.{reverse-cons, reverse-reverse}

abbrev pub IsByte : ℕ → Type 0
IsByte b = b < 256

to_bytes-IsByte : (w v : ℕ) → All IsByte (to_bytes w v)
unfolding to_bytes
to_bytes-IsByte zero v = tt
to_bytes-IsByte (suc w) v = (omega arith, to_bytes-IsByte w (v / 256))

pub length-to_bytes : (w v : ℕ) → length (to_bytes w v) ≡ w
unfolding to_bytes
length-to_bytes zero v = refl
length-to_bytes (suc w) v = ap suc (length-to_bytes w (v / 256))

pow_bytes : (w : ℕ) → 256 ^ suc w ≡ 256 * 256 ^ w
pow_bytes w = omega arith

pub of_bytes-to_bytes : (w v : ℕ) → v < 256 ^ w → of_bytes (to_bytes w v) ≡ v
unfolding to_bytes of_bytes
of_bytes-to_bytes zero v h = omega arith
of_bytes-to_bytes (suc w) v h =
    omega (arith, of_bytes-to_bytes w (v / 256) (omega (arith, pow_bytes w)))

of_bytes-lt : (bs : List ℕ) → All IsByte bs → of_bytes bs < 256 ^ length bs
unfolding of_bytes
of_bytes-lt [] h = omega arith
of_bytes-lt (b ∷ bs) h = omega (arith, of_bytes-lt bs h.1, h.0, pow_bytes (length bs))

to_bytes-of_bytes :
    (w : ℕ) (bs : List ℕ) → All IsByte bs → w ≡ length bs → to_bytes w (of_bytes bs) ≡ bs
unfolding to_bytes of_bytes
to_bytes-of_bytes zero [] h e = refl
to_bytes-of_bytes zero (b ∷ bs) h e = absurd (omega arith)
to_bytes-of_bytes (suc w) [] h e = absurd (omega arith)
to_bytes-of_bytes (suc w) (b ∷ bs) h e =
    let low : (b + 256 * of_bytes bs) % 256 ≡ b = omega (arith, h.0) in
    let high : (b + 256 * of_bytes bs) / 256 ≡ of_bytes bs = omega (arith, h.0) in
    rw (low, high, to_bytes-of_bytes w bs h.1 (omega arith))

reverse-IsByte : (bs : List ℕ) → All IsByte bs → All IsByte (reverse bs)
reverse-IsByte [] h = tt
reverse-IsByte (b ∷ bs) h =
    rw (reverse-cons b bs)
      (All-append IsByte (reverse bs) (b ∷ []) (reverse-IsByte bs h.1) (h.0, tt))

length-reverse : (bs : List ℕ) → length (reverse bs) ≡ length bs
length-reverse [] = refl
length-reverse (b ∷ bs) =
    rw (reverse-cons b bs)
      (omega (arith, length-append {0} (reverse bs) (b ∷ []), length-reverse bs))

to_bytes-byteswap : (w v : ℕ) → to_bytes w (byteswap w v) ≡ reverse (to_bytes w v)
unfolding byteswap
to_bytes-byteswap w v =
    to_bytes-of_bytes w (reverse (to_bytes w v)) (reverse-IsByte _ (to_bytes-IsByte w v))
      (sym (length-reverse (to_bytes w v) ∙ length-to_bytes w v))

pub byteswap-lt : (w v : ℕ) → byteswap w v < 256 ^ w
unfolding byteswap
byteswap-lt w v =
    rw (length-reverse, length-to_bytes) at
      (of_bytes-lt (reverse (to_bytes w v)) (reverse-IsByte _ (to_bytes-IsByte w v)))

pub byteswap-byteswap : (w v : ℕ) → v < 256 ^ w → byteswap w (byteswap w v) ≡ v
byteswap-byteswap w v h =
    unfold byteswap in
    (ap (λ bs. of_bytes (reverse bs)) (to_bytes-byteswap w v)
      ∙ ap of_bytes (reverse-reverse (to_bytes w v))
      ∙ of_bytes-to_bytes w v h)

to_order-lt : (w : ℕ) (e : Endian) (v : ℕ) → v < 256 ^ w → to_order w e v < 256 ^ w
unfolding to_order
to_order-lt w little_endian v h = h
to_order-lt w big_endian v h = byteswap-lt w v

to_order-to_order : (w : ℕ) (e : Endian) (v : ℕ) → v < 256 ^ w → to_order w e (to_order w e v) ≡ v
unfolding to_order
to_order-to_order w little_endian v h = refl
to_order-to_order w big_endian v h = byteswap-byteswap w v h

-- The bytes on the wire: lowest first, or highest first.
abbrev pub wire : ℕ → Endian → ℕ → List ℕ
wire w little_endian v = to_bytes w v
wire w big_endian v = reverse (to_bytes w v)

to_bytes-to_order : (w : ℕ) (e : Endian) (v : ℕ) → to_bytes w (to_order w e v) ≡ wire w e v
unfolding to_order
to_bytes-to_order w little_endian v = refl
to_bytes-to_order w big_endian v = to_bytes-byteswap w v

pub length-wire : (w : ℕ) (e : Endian) (v : ℕ) → length (wire w e v) ≡ w
length-wire w little_endian v = length-to_bytes w v
length-wire w big_endian v = length-reverse (to_bytes w v) ∙ length-to_bytes w v

-- On a valid array an integer is written at the cursor as its w bytes, the lowest first in little
-- endian order and the highest first in big endian order.
pub write_fuint-view :
    (w v : ℕ) (ba : ByteArray)
    → IsValid ba
    → (ba' : ByteArray) × (write_fuint w v ba ≡ ret tt ba')
      × IsValid ba'
      × (view ba' ≡ written (wire w ba.endian v) (view ba))
unfolding write_fuint
write_fuint-view w v ba valid =
    rw (to_bytes-to_order w ba.endian v) (write-view (wire w ba.endian v) ba valid)

-- Where the wire form of v is behind the cursor, it is read as v.
pub read_fuint_lem :
    (w v : ℕ) (rest : List ℕ) (ba : ByteArray)
    → IsValid ba
    → 0 < w
    → v < 256 ^ w
    → (view ba).after ≡ wire w ba.endian v ++ rest
    → (ba' : ByteArray) × (read_fuint w ba ≡ ret v ba') × Took (wire w ba.endian v) rest ba ba'
unfolding read_fuint
read_fuint_lem w v rest ba valid some h e =
    let order : Endian = ba.endian in
    let long : length (wire w order v ++ rest) ≡ w + length rest =
      length-append {0} (wire w order v) rest
      ∙ ap (λ (n : ℕ). n + length rest) (length-wire w order v) in
    let room : ba.position < ba.capacity =
      room_behind ba (wire w order v ++ rest) valid e (omega (arith, long)) in
    let (ba', r, t) =
      read_front (wire w order v) rest w ba valid room (sym (length-wire w order v)) e in
    let number : of_bytes (wire w order v) ≡ to_order w order v =
      rw (← to_bytes-to_order w order v)
        (of_bytes-to_bytes w (to_order w order v) (to_order-lt w order v h)) in
    let value : to_order w ba'.endian (of_bytes (wire w order v)) ≡ v =
      rw (t.endian_eq, number) (to_order-to_order w order v h) in
    (
      ba',
      bind-ret (read w) (λ bytes b. ret (to_order w b.endian (of_bytes bytes)) b) r
          ∙ ap (λ (n : ℕ). ret n ba') value,
      t,
    )

-- On a valid array, in either byte order, an integer of w bytes that is written and read again from
-- the position where it was put comes back.
pub fuint-roundtrip :
    (w v : ℕ) (ba : ByteArray)
    → IsValid ba
    → 0 < w
    → v < 256 ^ w
    → (ba₁ : ByteArray) × (ba₂ : ByteArray) × (ba₃ : ByteArray) × (write_fuint w v ba ≡ ret tt ba₁)
      × (set_position ba.position ba₁ ≡ ret tt ba₂)
      × (read_fuint w ba₂ ≡ ret v ba₃)
unfolding write_fuint
fuint-roundtrip w v ba valid some h =
    let (ba₁, ba₂, writes, p) = replay (wire w ba.endian v) ba valid in
    let same : wire w ba.endian v ≡ wire w ba₂.endian v =
      ap (λ (e : Endian). wire w e v) (sym p.endian_eq) in
    let (ba₃, r, t) =
      read_fuint_lem w v (drop (length (wire w ba.endian v)) (view ba).after) ba₂ p.valid some h
        (p.after_eq ∙ ap (λ bs. bs ++ drop (length (wire w ba.endian v)) (view ba).after) same) in
    (ba₁, ba₂, ba₃, rw (to_bytes-to_order w ba.endian v) writes, p.seeks, r)

pub write_fuint8-view :
    (v : ℕ) (ba : ByteArray)
    → IsValid ba
    → (ba' : ByteArray) × (write_fuint8 v ba ≡ ret tt ba')
      × IsValid ba'
      × (view ba' ≡ written ((v % 256) ∷ []) (view ba))
unfolding write_fuint8 to_bytes
write_fuint8-view v ba valid = write-view ((v % 256) ∷ []) ba valid

pub read_fuint8_lem :
    (b : ℕ) (rest : List ℕ) (ba : ByteArray)
    → IsValid ba
    → (view ba).after ≡ b ∷ rest
    → (ba' : ByteArray) × (read_fuint8 ba ≡ ret b ba') × Took (b ∷ []) rest ba ba'
unfolding read_fuint8 of_bytes
read_fuint8_lem b rest ba valid e =
    let (ba', r, t) =
      read_front (b ∷ []) rest 1 ba valid (room_behind ba (b ∷ rest) valid e (omega arith))
        (omega arith) e in
    let value : b + 256 * 0 ≡ b = omega arith in
    (
      ba',
      bind-ret (read 1) (λ bytes. return (of_bytes bytes)) r ∙ ap (λ (n : ℕ). ret n ba') value,
      t,
    )
