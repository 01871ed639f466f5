-- ===== src/Http2/Frame.antt =====
-- chat/http2/frame.h and frame.cc: the frame header and the payloads, over the byte array.
--
-- The unions are their whole words; the bit fields are read off by division. A payload's readFrom
-- gives the frame, or `none` where an exception was caught; writeTo gives its result. Logging is
-- left out.
pub mod Codec
pub mod RoundTrip
pub mod Payloads
pub mod Headers
pub mod Switch
mod Runs
use cpp_linux_server.Base.{
  ℕ, zero, suc, ◌+◌, ◌-◌, ◌*◌, ◌/◌, ◌%◌, ◌^◌, List, [], ◌∷◌, length, Bool, true, false, not, ltb,
  ◌==◌, if◌then◌else◌, Option, none, some, bit_and,
}
use cpp_linux_server.ByteArray.{
  ByteArray, M, ret, out_of_range, fault, return, ◌>>=◌, ◌>>◌, write, read,
}
use cpp_linux_server.ByteArray.Fixed.{
  write_fuint8, write_fuint16, write_fuint32, read_fuint8, read_fuint16, read_fuint32,
}

pub record FrameHeader : Type 0 where
  pub len_type : ℕ
  pub flags : ℕ
  pub r_id : ℕ

unfoldable pub frame_type : FrameHeader → ℕ
frame_type h = h.len_type % 256

unfoldable pub frame_length : FrameHeader → ℕ
frame_length h = h.len_type / 256

unfoldable pub identifier : FrameHeader → ℕ
identifier h = h.r_id % 2 ^ 31

-- `flags & bit`, as a condition.
abbrev pub has : ℕ → ℕ → Bool
has flags bit = not (bit_and flags bit == 0)

abbrev pub flag_padded : ℕ
flag_padded = 0x8

abbrev pub flag_priority : ℕ
flag_priority = 0x20

-- `try { m; return true; } catch(...) {} return false;`
abbrev pub try : M (Unit {0}) → M Bool
try m ba = elim (m ba) [
  | ret _ ba' ↦ ret true ba'
  | out_of_range ba' ↦ ret false ba'
  | fault ↦ fault
]

-- The same around a body that fills a frame.
abbrev pub attempt : {A : Type 0} → M A → M (Option A)
attempt m ba = elim (m ba) [
  | ret a ba' ↦ ret (some a) ba'
  | out_of_range ba' ↦ ret none ba'
  | fault ↦ fault
]

-- `resize` to a negative int throws std::length_error, which the same handlers catch.
abbrev pub length_error : {A : Type 0} → M A
length_error ba = out_of_range ba

-- `resize(size - overhead)` and a read of all of it.
unfoldable pub read_rest : ℕ → ℕ → M (List ℕ)
read_rest size overhead = if ltb size overhead then length_error else read (size - overhead)

unfoldable pub header_write : FrameHeader → M (Unit {0})
header_write h = do write_fuint32 h.len_type; write_fuint8 h.flags; write_fuint32 h.r_id

unfoldable pub header_read : M FrameHeader
header_read = do
  len_type ← read_fuint32
  flags ← read_fuint8
  r_id ← read_fuint32
  return (record { len_type = len_type; flags = flags; r_id = r_id })

pub record DataFrame : Type 0 where
  pub pad : ℕ
  pub content : List ℕ
  pub padding : List ℕ

-- The two branches of DataFrame::writeTo, by the PADDED flag.
unfoldable pub data_body : Bool → DataFrame → M (Unit {0})
data_body true f = do write_fuint8 f.pad; write f.content; write f.padding
data_body false f = write f.content

unfoldable pub data_write : FrameHeader → DataFrame → M (Unit {0})
data_write h f = data_body (has h.flags flag_padded) f

-- The two branches of DataFrame::readFrom, on a payload of `size` bytes.
unfoldable pub data_fill : Bool → ℕ → M DataFrame
data_fill true size = do
  pad ← read_fuint8
  content ← read_rest size (pad + 1)
  padding ← read pad
  return (record { pad = pad; content = content; padding = padding })
data_fill false size = do
  content ← read size
  return (record { pad = 0; content = content; padding = [] })

unfoldable pub data_read : FrameHeader → M DataFrame
data_read h = data_fill (has h.flags flag_padded) (frame_length h)

pub record PriorityFrame : Type 0 where
  pub e_stream_dep : ℕ
  pub weight : ℕ

abbrev pub no_priority : PriorityFrame
no_priority = record { e_stream_dep = 0; weight = 0 }

unfoldable pub priority_write : PriorityFrame → M (Unit {0})
priority_write f = do write_fuint32 f.e_stream_dep; write_fuint8 f.weight

-- readFrom on a frame `f`: the fields that were read before an exception stay assigned.
unfoldable pub priority_read : PriorityFrame → M (PriorityFrame × Bool)
priority_read f ba = elim (read_fuint32 ba) [
  | ret dep ba' ↦ elim (read_fuint8 ba') [
    | ret w ba'' ↦ ret (record { e_stream_dep = dep; weight = w }, true) ba''
    | out_of_range ba'' ↦ ret (record f { e_stream_dep = dep }, false) ba''
    | fault ↦ fault
  ]
  | out_of_range ba' ↦ ret (f, false) ba'
  | fault ↦ fault
]

-- `packed` is what hpack->pack makes of kvs, where the frame has an hpack and pairs to pack.
pub record HeadersFrame : Type 0 where
  pub pad : ℕ
  pub priority : PriorityFrame
  pub content : List ℕ
  pub padding : List ℕ
  pub packed : Option (List ℕ)

abbrev pub block : HeadersFrame → List ℕ
block f = elim f.packed [ none ↦ f.content | some bytes ↦ bytes ]

unfoldable pub headers_write : FrameHeader → HeadersFrame → M (Unit {0})
headers_write h f = do
  if has h.flags flag_padded then write_fuint8 f.pad else return tt
  if has h.flags flag_priority then priority_write f.priority else return tt
  write (block f)
  if has h.flags flag_padded then write f.padding else return tt

-- The bytes that pad and priority take from the length.
abbrev pub overhead : FrameHeader → ℕ → ℕ
overhead h pad =
    (if has h.flags flag_padded then 1 + pad else 0) + (if has h.flags flag_priority then 5 else 0)

unfoldable pub headers_read : FrameHeader → M HeadersFrame
headers_read h = do
  pad ← if has h.flags flag_padded then read_fuint8 else return 0
  (priority, _) ←
      if has h.flags flag_priority then priority_read no_priority else return (no_priority, true)
  content ← read_rest (frame_length h) (overhead h pad)
  padding ← if has h.flags flag_padded then read pad else return []
  return (record {
    pad = pad;
    priority = priority;
    content = content;
    padding = padding;
    packed = none;
  })
