-- ===== src/Http2/Hpack/Runs.antt =====
-- Concrete integers, and the theorems at concrete inputs.
use cpp_linux_server.Base.{
  ℕ, ◌≡◌, ◌<◌, ◌*◌, ◌^◌, ◌++◌, refl, List, [], ◌∷◌, arith, true, false, map,
}
use cpp_linux_server.ByteArray.{ByteArray, create, ret, write, read, set_position, big_endian, ◌>>◌}
use cpp_linux_server.ByteArray.Fixed.{read_fuint8, write_fuint8, of_bytes, to_bytes}
use cpp_linux_server.ByteArray.Effects.{IsNetwork, Read}
use cpp_linux_server.Http2.Hpack.{
  write_varint, write_tail, read_varint, read_varint_from, read_tail,
}
use cpp_linux_server.Http2.Hpack.Varint.{prefixed_bytes}
use cpp_linux_server.Http2.Hpack.RoundTrip.{read_varint-prefixed_bytes, read_varint-smaller}
use cpp_linux_server.Http2.DynamicTable.Static.{Pair}
use cpp_linux_server.Http2.Hpack.Fields.{Huffman, Hpack, pack_fields, accept_all}
use cpp_linux_server.Http2.Hpack.Sync.{pair_of, accept_all-pack_fields}

-- A Huffman code that leaves every string as it is.
abbrev plain : Huffman
plain = record { encode_string = λ s. s; decode_string = λ s. s; should_encode = λ s. false }

abbrev fresh : Hpack
fresh = record { headers = []; table = record { max_data_size = 100; data_size = 0; datas = [] } }

abbrev two_headers : List Pair
two_headers = ((1 ∷ []), (2 ∷ [])) ∷ ((1 ∷ []), (2 ∷ [])) ∷ []

accept_all-pack_fields_example :
    (map pair_of (accept_all (pack_fields plain two_headers fresh).0 fresh).headers
      ≡ map pair_of [] ++ two_headers)
    × ((accept_all (pack_fields plain two_headers fresh).0 fresh).table
        ≡ (pack_fields plain two_headers fresh).1.table)
accept_all-pack_fields_example = accept_all-pack_fields plain two_headers fresh fresh refl

-- Bytes in one block of eight bytes.
abbrev holding : List ℕ → ℕ → ByteArray
holding bytes size = record {
  base_size = 8;
  position = 0;
  capacity = 8;
  size = size;
  endian = big_endian;
  nodes = bytes ∷ [];
  cur = 0;
  owner = true;
}

abbrev bytes_100 : List ℕ
bytes_100 = 31 ∷ 69 ∷ 256 ∷ 256 ∷ 256 ∷ 256 ∷ 256 ∷ 256 ∷ []

abbrev bytes_1337 : List ℕ
bytes_1337 = 31 ∷ 26 ∷ 10 ∷ 256 ∷ 256 ∷ 256 ∷ 256 ∷ 256 ∷ []

holding-IsNetwork_100 : IsNetwork (holding bytes_100 2)
holding-IsNetwork_100 = record {
  valid = record {
    base_pos = omega arith;
    blocks = (refl, tt);
    capacity_eq = refl;
    cur_eq = refl;
    position_le = omega arith;
    size_le = omega arith;
    rooted = omega arith;
  };
  order = refl;
}

holding-IsNetwork_1337 : IsNetwork (holding bytes_1337 3)
holding-IsNetwork_1337 = record {
  valid = record {
    base_pos = omega arith;
    blocks = (refl, tt);
    capacity_eq = refl;
    cur_eq = refl;
    position_le = omega arith;
    size_le = omega arith;
    rooted = omega arith;
  };
  order = refl;
}

-- RFC 7541, C.1.2: 1337 with a prefix of five bits is 31, 154, 10; what is read back is 57.
lost_1337 :
    (do write_varint 5 1337 0; set_position 0; read_varint 5) (create 8)
    ≡ ret 57 (record (holding bytes_1337 3) { position = 2 })
unfolding write_varint write_tail read_varint read_varint_from read_tail write_fuint8 read_fuint8
    to_bytes of_bytes write read set_position create
lost_1337 = refl

read_varint-prefixed_bytes_example :
    (ba' : ByteArray) × (read_varint 5 (holding bytes_100 2) ≡ ret 100 ba')
    × Read (prefixed_bytes 5 100 (0 * 2 ^ 5)) [] (holding bytes_100 2) ba'
read_varint-prefixed_bytes_example =
    read_varint-prefixed_bytes 5 0 100 [] (holding bytes_100 2)
      (omega arith, omega arith, omega arith) (omega arith) holding-IsNetwork_100 refl (omega arith)

read_varint-smaller_example :
    (got : ℕ) × (ba' : ByteArray) × (read_varint 5 (holding bytes_1337 3) ≡ ret got ba')
    × (got < 1337)
read_varint-smaller_example =
    read_varint-smaller 5 0 1337 [] (holding bytes_1337 3) (omega arith, omega arith, omega arith)
      (omega arith) holding-IsNetwork_1337 refl (omega arith)
