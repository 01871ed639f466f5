-- ===== src/Http2/Frame/RoundTrip.antt =====
-- The wire form of the frame header and of the payloads, and that readFrom inverts writeTo.
use cpp_linux_server.Base.{
  ℕ, ◌+◌, ◌-◌, ◌^◌, ◌<◌, ◌≡◌, sym, List, [], ◌∷◌, ◌++◌, length, Bool, true, false, arith, le→ltb,
  subst,
}
use cpp_linux_server.ByteArray.{big_endian, ◌>>◌, write, read}
use cpp_linux_server.ByteArray.Fixed.{write_fuint8, write_fuint32, read_fuint8, read_fuint32}
use cpp_linux_server.ByteArray.Fixed.RoundTrip.{wire}
use cpp_linux_server.ByteArray.Effects.{
  Writes, Reads, Writes-bind, Writes-write, Writes-fuint, Writes-fuint8, Reads-bind, Reads-map,
  Reads-read, Reads-fuint, Reads-fuint8,
}
use cpp_linux_server.Http2.Frame.{
  FrameHeader, read_rest, DataFrame, data_body, data_fill, header_write, header_read,
}

-- A 16-bit and a 32-bit word in network byte order.
abbrev pub word16 : ℕ → List ℕ
word16 = wire 2 big_endian

abbrev pub word32 : ℕ → List ℕ
word32 = wire 4 big_endian

pub Writes-word32 : (v : ℕ) → Writes (word32 v) (write_fuint32 v)
unfolding write_fuint32
Writes-word32 v = Writes-fuint 4 v

pub Reads-word32 : (v : ℕ) → v < 2 ^ 32 → Reads (word32 v) v read_fuint32
unfolding read_fuint32
Reads-word32 v h = Reads-fuint 4 v (omega arith) (omega arith)

abbrev pub header_bytes : FrameHeader → List ℕ
header_bytes h = word32 h.len_type ++ (h.flags ∷ word32 h.r_id)

pub record IsHeader (h : FrameHeader) : Type 0 where
  pub len_type_lt : h.len_type < 2 ^ 32
  pub flags_lt : h.flags < 256
  pub r_id_lt : h.r_id < 2 ^ 32

pub Writes-header : (h : FrameHeader) → IsHeader h → Writes (header_bytes h) (header_write h)
unfolding header_write
Writes-header h v =
    Writes-bind (write_fuint32 h.len_type) (write_fuint8 h.flags >> write_fuint32 h.r_id)
      (Writes-word32 h.len_type)
      (Writes-bind (write_fuint8 h.flags) (write_fuint32 h.r_id) (Writes-fuint8 h.flags v.flags_lt)
        (Writes-word32 h.r_id))

pub Reads-header : (h : FrameHeader) → IsHeader h → Reads (header_bytes h) h header_read
unfolding header_read
Reads-header h v = Reads-bind read_fuint32 _ (Reads-word32 h.len_type v.len_type_lt) (
    Reads-bind read_fuint8 _ (Reads-fuint8 h.flags) (
      Reads-map read_fuint32 (λ r. record { len_type = h.len_type; flags = h.flags; r_id = r })
        (Reads-word32 h.r_id v.r_id_lt)))

-- `size` bytes less what has been read of them.
pub Reads-rest :
    (xs : List ℕ) (size overhead : ℕ)
    → size ≡ overhead + length xs
    → Reads xs xs (read_rest size overhead)
unfolding read_rest
Reads-rest xs size overhead e =
    rw (le→ltb size overhead (omega arith)) (Reads-read xs (size - overhead) (omega arith))

-- The wire form of a DATA payload, and what its frame must satisfy: a pad is a byte and counts the
-- padding; without the flag there is none; the parts fill the length.
abbrev pub data_bytes : Bool → DataFrame → List ℕ
data_bytes true f = f.pad ∷ (f.content ++ f.padding)
data_bytes false f = f.content

abbrev pub FitsData : Bool → ℕ → DataFrame → Type 0
FitsData true size f =
    (f.pad < 256) × (length f.padding ≡ f.pad) × (size ≡ 1 + f.pad + length f.content)
FitsData false size f = (f.pad ≡ 0) × (f.padding ≡ []) × (size ≡ length f.content)

pub Writes-data : (b : Bool) (f : DataFrame) → f.pad < 256 → Writes (data_bytes b f) (data_body b f)
unfolding data_body
Writes-data true f v = Writes-bind (write_fuint8 f.pad) _ (Writes-fuint8 f.pad v) (
    Writes-bind (write f.content) (write f.padding) (Writes-write f.content)
      (Writes-write f.padding))
Writes-data false f v = Writes-write f.content

pub Reads-data :
    (b : Bool) (size : ℕ) (f : DataFrame)
    → FitsData b size f
    → Reads (data_bytes b f) f (data_fill b size)
unfolding data_fill
Reads-data true size f v = Reads-bind read_fuint8 _ (Reads-fuint8 f.pad) (
    Reads-bind (read_rest size (f.pad + 1)) _
      (Reads-rest f.content size (f.pad + 1) (omega (arith, v.2)))
      (Reads-map (read f.pad) (λ p. record { pad = f.pad; content = f.content; padding = p })
        (Reads-read f.padding f.pad (sym v.1))))
Reads-data false size f v =
    subst (λ x. Reads f.content x (data_fill false size)) plain
      (Reads-map (read size) (λ c. record { pad = 0; content = c; padding = [] })
        (Reads-read f.content size v.2))
  where
    plain : record { pad = 0; content = f.content; padding = [] } ≡ f
    plain = λ i. record { pad = (sym v.0) i; content = f.content; padding = (sym v.1) i }
