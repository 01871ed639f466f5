-- ===== src/Http2/Hpack/Fields.antt =====
-- chat/http2/hpack.cc: header fields, their wire form, and the steps of parse and pack.
--
-- The Huffman code is an interface. A field is as in the source; what an exception leaves of the
-- HPack is not modelled.
use cpp_linux_server.Base.{
  ℕ, zero, suc, ◌-◌, ◌%◌, ◌^◌, List, [], ◌∷◌, ◌++◌, length, Bool, true, false, not, ltb, leb, ◌==◌,
  if◌then◌else◌, Option, none, some, bit_and, sub64,
}
use cpp_linux_server.ByteArray.{M, ret, out_of_range, return, ◌>>=◌, ◌>>◌, write, read}
use cpp_linux_server.ByteArray.Fixed.{read_fuint8}
use cpp_linux_server.Http2.DynamicTable.Static.{Bytes, Pair}
use cpp_linux_server.Http2.DynamicTable.{DynamicTable, update, find_pair, get_pair, get_name}
use cpp_linux_server.Http2.Hpack.{write_varint, read_varint_from}

-- Huffman::EncodeString, DecodeString and ShouldEncode.
pub record Huffman : Type 0 where
  pub encode_string : Bytes → Bytes
  pub decode_string : Bytes → Bytes
  pub should_encode : Bytes → Bool

pub data IndexType : Type 0 where
  indexed : IndexType
  with_indexing_indexed_name : IndexType
  with_indexing_new_name : IndexType
  without_indexing_indexed_name : IndexType
  without_indexing_new_name : IndexType
  nerver_indexed_indexed_name : IndexType
  nerver_indexed_new_name : IndexType
  error : IndexType

pub record HeaderField : Type 0 where
  pub type : IndexType
  pub h_name : Bool
  pub h_value : Bool
  pub index : ℕ
  pub name : Bytes
  pub value : Bytes

unfoldable pub write_string : Huffman → Bytes → Bool → M (Unit {0})
write_string hf str true =
    write_varint 7 (length (hf.encode_string str)) 0x80 >> write (hf.encode_string str)
write_string hf str false = write_varint 7 (length str) 0 >> write str

-- The bytes of a string of `len`, an int.
unfoldable pub read_chars : Huffman → ℕ → ℕ → M Bytes
read_chars hf type len =
    if len == 0
    then return []
    else if leb (2 ^ 31) len
    then (λ ba. out_of_range ba)
    else (read len >>= λ chars.
        return (if bit_and type 0x80 == 0 then chars else hf.decode_string chars))

unfoldable pub read_string : Huffman → M Bytes
read_string hf = do
  type ← read_fuint8
  len ← read_varint_from 7 type
  read_chars hf type (len % 2 ^ 32)

abbrev write_new_name : Huffman → HeaderField → M (Unit {0})
write_new_name hf h = write_string hf h.name h.h_name >> write_string hf h.value h.h_value

-- HPack::Pack
unfoldable pub pack_field : Huffman → HeaderField → M (Unit {0})
pack_field hf h = elim h.type [
  | indexed ↦ write_varint 7 h.index 0x80
  | with_indexing_indexed_name ↦ write_varint 6 h.index 0x40 >> write_string hf h.value h.h_value
  | with_indexing_new_name ↦ write_varint 6 h.index 0x40 >> write_new_name hf h
  | without_indexing_indexed_name ↦ write_varint 4 h.index 0x00 >> write_string hf h.value h.h_value
  | without_indexing_new_name ↦ write_varint 4 h.index 0x00 >> write_new_name hf h
  | nerver_indexed_indexed_name ↦ write_varint 4 h.index 0x10 >> write_string hf h.value h.h_value
  | nerver_indexed_new_name ↦ write_varint 4 h.index 0x10 >> write_new_name hf h
  | error ↦ return tt
]

-- What parse makes of a field with the table: the table behind it, the field with what it refers to.
unfoldable pub resolve : HeaderField → DynamicTable → HeaderField
resolve h t = elim h.type [
  | indexed ↦ let p : Pair = get_pair h.index t in record h { name = p.0; value = p.1 }
  | _ ↦ if ltb 0 h.index then record h { name = (get_pair h.index t).0 } else h
]

unfoldable pub retable : HeaderField → DynamicTable → DynamicTable
retable h t = elim h.type [
  | with_indexing_indexed_name ↦ update (get_name h.index t) h.value t
  | with_indexing_new_name ↦ update h.name h.value t
  | _ ↦ t
]

-- HPack: m_headers and m_table.
pub record Hpack : Type 0 where
  pub headers : List HeaderField
  pub table : DynamicTable

unfoldable pub accept : HeaderField → Hpack → Hpack
accept h hp =
    let full : HeaderField = resolve h hp.table in
    record { headers = hp.headers ++ (full ∷ []); table = retable full hp.table }

-- A new name is sent with its value.
abbrev new_field : Huffman → Pair → HeaderField
new_field hf p = record {
  type = with_indexing_new_name;
  h_name = hf.should_encode p.0;
  h_value = hf.should_encode p.1;
  index = 0;
  name = p.0;
  value = p.1;
}

-- The field that pack chooses by the answer of findPair; (uint32_t)-1 does not occur.
unfoldable pub choose_by : Huffman → Pair → Option ℕ × Bool → HeaderField
choose_by hf p (found, true) = record {
  type = indexed;
  h_name = false;
  h_value = false;
  index = elim found [ none ↦ 2 ^ 32 - 1 | some k ↦ k ];
  name = [];
  value = [];
}
choose_by hf p (some (suc k), false) = record {
  type = with_indexing_indexed_name;
  h_name = false;
  h_value = hf.should_encode p.1;
  index = suc k;
  name = p.0;
  value = p.1;
}
choose_by hf p (some zero, false) = new_field hf p
choose_by hf p (none, false) = new_field hf p

-- m_table behind that choice.
unfoldable pub table_by : Pair → Option ℕ × Bool → DynamicTable → DynamicTable
table_by p (found, true) t = t
table_by p (found, false) t = update p.0 p.1 t

-- The loop of pack, without the writing: its fields and the HPack behind it.
unfoldable pub pack_fields : Huffman → List Pair → Hpack → List HeaderField × Hpack
pack_fields hf [] hp = ([], hp)
pack_fields hf (p ∷ ps) hp =
    let r : Option ℕ × Bool = find_pair p.0 p.1 hp.table in
    let h : HeaderField = choose_by hf p r in
    let rest : List HeaderField × Hpack =
      pack_fields hf ps
        (record { headers = hp.headers ++ (h ∷ []); table = table_by p r hp.table }) in
    (h ∷ rest.0, rest.1)

unfoldable pub write_fields : Huffman → List HeaderField → M (Unit {0})
write_fields hf [] = return tt
write_fields hf (h ∷ hs) = pack_field hf h >> write_fields hf hs

-- HPack::pack of headers, less the count of bytes; what is written does not depend on the table.
unfoldable pub pack : Huffman → List Pair → Hpack → M Hpack
pack hf ps hp =
    let r : List HeaderField × Hpack = pack_fields hf ps hp in
    (write_fields hf r.0 >>= λ _. return r.1)

-- The fields of a block that parse reads, one after another.
unfoldable pub accept_all : List HeaderField → Hpack → Hpack
accept_all [] hp = hp
accept_all (h ∷ hs) hp = accept_all hs (accept h hp)

-- An index from a prefix, a uint32_t, and the type with or without it.
abbrev by_index : IndexType → IndexType → ℕ → HeaderField
by_index named new v = record {
  type = if ltb 0 (v % 2 ^ 32) then named else new;
  h_name = false;
  h_value = false;
  index = v % 2 ^ 32;
  name = [];
  value = [];
}

-- The strings behind the index.
unfoldable pub read_strings : Huffman → HeaderField → M (Option HeaderField)
read_strings hf h =
    if ltb 0 h.index
    then (read_string hf >>= λ v. return (some (record h { value = v })))
    else (read_string hf >>= λ n.
        read_string hf >>= λ v. return (some (record h { name = n; value = v })))

-- The field behind its first byte; `none` is the return of -1.
unfoldable pub read_field : Huffman → ℕ → M (Option HeaderField)
read_field hf type =
    if not (bit_and type 0x80 == 0)
    then (read_varint_from 7 type >>= λ v. return (some (by_index indexed indexed v)))
    else if not (bit_and type 0x40 == 0)
    then (read_varint_from 6 type >>= λ v.
        read_strings hf (by_index with_indexing_indexed_name with_indexing_new_name v))
    else if bit_and type 0xf0 == 0
    then (read_varint_from 4 type >>= λ v.
        read_strings hf (by_index without_indexing_indexed_name without_indexing_new_name v))
    else if not (bit_and type 0x10 == 0)
    then (read_varint_from 4 type >>= λ v.
        read_strings hf (by_index nerver_indexed_indexed_name nerver_indexed_new_name v))
    else return none

-- The while loop of parse, from the position `pos`: each round reads a byte, so `length` rounds are
-- enough. The result is parsed, or `none` for -1.
unfoldable pub parse : Huffman → ℕ → ℕ → ℕ → Hpack → M (Hpack × Option ℕ)
parse hf zero pos length hp = λ ba. ret (hp, some (sub64 ba.position pos)) ba
parse hf (suc rounds) pos length hp =
    let more : Option HeaderField → M (Hpack × Option ℕ) = λ r. elim r [
      | none ↦ return (hp, none)
      | some h ↦ parse hf rounds pos length (accept h hp)
    ] in
    λ ba.
      if ltb (sub64 ba.position pos) length
      then (read_fuint8 >>= λ type. read_field hf type >>= more) ba
      else ret (hp, some (sub64 ba.position pos)) ba
