-- ===== src/ByteArray/Runs.antt =====
-- Concrete runs of the byte array in blocks of four bytes, and the theorems at concrete inputs.
use cpp_linux_server.Base.{ℕ, ◌≡◌, refl, List, [], ◌∷◌, arith}
use cpp_linux_server.ByteArray.{
  ByteArray, create, ret, out_of_range, fault, write, read, set_position, to_string, add_capacity,
  big_endian, ◌>>◌, true,
}
use cpp_linux_server.ByteArray.Stream.{IsValid, view, written, advanced, rewound}
use cpp_linux_server.ByteArray.Capacity.{Grown, add_capacity_lem}
use cpp_linux_server.ByteArray.Refines.{write-view, read-view, read-short, read_at_end_faults}
use cpp_linux_server.ByteArray.Seek.{set_position-view, create-IsValid}
use cpp_linux_server.ByteArray.Fixed.{
  write_fuint, read_fuint, write_fuint16, write_fuint32, read_fuint16, to_bytes, of_bytes, to_order,
}
use cpp_linux_server.ByteArray.Fixed.RoundTrip.{fuint-roundtrip}
use cpp_linux_server.ByteArray.Varint.{
  write_uint64, read_uint64, encode_zigzag64, decode_zigzag64, write_string_f16, read_string_f16,
  write_string_vint, read_string_vint,
}
use cpp_linux_server.ByteArray.Varint.RoundTrip.{uint64-roundtrip}
use cpp_linux_server.ByteArray.Varint.Zigzag.{decode-encode_zigzag64}
use cpp_linux_server.ByteArray.Varint.Strings.{Survives, string_vint-roundtrip}

abbrev small : ByteArray
small = create 4

abbrev digits : List ℕ
digits = 1 ∷ 2 ∷ 3 ∷ 4 ∷ 5 ∷ []

-- Five bytes that fill one block and begin the next.
abbrev five : ByteArray
five = record {
  base_size = 4;
  position = 0;
  capacity = 8;
  size = 5;
  endian = big_endian;
  nodes = (1 ∷ 2 ∷ 3 ∷ 4 ∷ []) ∷ (5 ∷ 256 ∷ 256 ∷ 256 ∷ []) ∷ [];
  cur = 0;
  owner = true;
}

write-five : (write digits >> set_position 0) small ≡ ret tt five
unfolding write set_position create
write-five = refl

wire_300 :
    (write_fuint32 300 >> set_position 0 >> to_string) small
    ≡ ret (0 ∷ 0 ∷ 1 ∷ 44 ∷ []) (record small { nodes = (0 ∷ 0 ∷ 1 ∷ 44 ∷ []) ∷ []; size = 4 })
unfolding write_fuint32 write_fuint to_bytes to_order write set_position create to_string
wire_300 = refl

small-IsValid : IsValid small
small-IsValid = create-IsValid 4 (omega arith)

five-IsValid : IsValid five
five-IsValid = record {
  base_pos = omega arith;
  blocks = (refl, (refl, tt));
  capacity_eq = refl;
  cur_eq = refl;
  position_le = omega arith;
  size_le = omega arith;
  rooted = omega arith;
}

write-view_example :
    (ba' : ByteArray) × (write digits small ≡ ret tt ba')
    × IsValid ba'
    × (view ba' ≡ written digits (view small))
write-view_example = write-view digits small small-IsValid

read-view_example :
    (ba' : ByteArray) × (read 5 five ≡ ret digits ba')
    × IsValid ba'
    × (view ba' ≡ advanced 5 (view five))
    × (ba'.capacity ≡ 8)
read-view_example = read-view 5 five five-IsValid (omega arith) (omega arith)

read-short_example : read 6 five ≡ out_of_range five
read-short_example = read-short 6 five five-IsValid (omega arith)

-- One whole block, read to its end.
abbrev at_end : ByteArray
at_end = record {
  base_size = 2;
  position = 2;
  capacity = 2;
  size = 2;
  endian = big_endian;
  nodes = (0 ∷ 0 ∷ []) ∷ [];
  cur = 1;
  owner = true;
}

at_end-IsValid : IsValid at_end
at_end-IsValid = record {
  base_pos = omega arith;
  blocks = (refl, tt);
  capacity_eq = refl;
  cur_eq = refl;
  position_le = omega arith;
  size_le = omega arith;
  rooted = omega arith;
}

read_at_end_faults_example : read 0 at_end ≡ fault
read_at_end_faults_example = read_at_end_faults at_end at_end-IsValid refl

-- So an empty string that ends a block is written and cannot be read back.
empty_string_faults : (write_string_f16 [] >> set_position 0 >> read_string_f16) (create 2) ≡ fault
unfolding write_string_f16 read_string_f16 write_fuint16 write_fuint read_fuint16 read_fuint
    to_bytes of_bytes to_order write read set_position create
empty_string_faults = refl

set_position-view_example :
    (ba' : ByteArray) × (set_position 4 five ≡ ret tt ba')
    × IsValid ba'
    × (view ba' ≡ rewound 4 (view five))
set_position-view_example = set_position-view 4 five five-IsValid (omega arith)

add_capacity_lem_example : Grown 9 five (add_capacity 9 five)
add_capacity_lem_example = add_capacity_lem 9 five five-IsValid

fuint-roundtrip_example :
    (ba₁ : ByteArray) × (ba₂ : ByteArray) × (ba₃ : ByteArray) × (write_fuint 4 70000 five
      ≡ ret tt ba₁)
    × (set_position 0 ba₁ ≡ ret tt ba₂)
    × (read_fuint 4 ba₂ ≡ ret 70000 ba₃)
fuint-roundtrip_example = fuint-roundtrip 4 70000 five five-IsValid (omega arith) (omega arith)

uint64-roundtrip_example :
    (ba₁ : ByteArray) × (ba₂ : ByteArray) × (ba₃ : ByteArray) × (write_uint64 0xffff_ffff_ffff five
      ≡ ret tt ba₁)
    × (set_position 0 ba₁ ≡ ret tt ba₂)
    × (read_uint64 ba₂ ≡ ret 0xffff_ffff_ffff ba₃)
uint64-roundtrip_example = uint64-roundtrip 0xffff_ffff_ffff five five-IsValid (omega arith)

decode-encode_zigzag64_example :
    decode_zigzag64 (encode_zigzag64 0x8000_0000_0000_0000) ≡ 0x8000_0000_0000_0000
decode-encode_zigzag64_example = decode-encode_zigzag64 0x8000_0000_0000_0000 (omega arith)

string_vint-roundtrip_example : Survives (write_string_vint digits) read_string_vint digits five
string_vint-roundtrip_example =
    string_vint-roundtrip digits five five-IsValid (omega arith) (omega arith)
