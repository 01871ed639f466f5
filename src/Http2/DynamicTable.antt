-- ===== src/Http2/DynamicTable.antt =====
-- chat/http2/dynamic_table.h and dynamic_table.cc: the table of HPACK.
--
-- The index -1 of the source is `none`. An int32_t is its 32 bits as a number below 2^32, negative from
-- 2^31 on; a sum or difference is taken modulo 2^32.
pub mod Static
pub mod Evict
pub mod Scan
pub mod Find
pub mod Shift
mod Runs
use cpp_linux_server.Base.{
  ℕ, zero, suc, ◌+◌, ◌-◌, ◌*◌, ◌%◌, ◌^◌, List, [], ◌∷◌, ◌++◌, length, get_elem?, Bool, true, false,
  ◌&&◌, ltb, ◌==◌, if◌then◌else◌, Option, none, some,
}
use cpp_linux_server.Http2.DynamicTable.Static.{Bytes, Pair, static_headers}

-- std::string's operator==
abbrev pub equal : Bytes → Bytes → Bool
equal [] [] = true
equal [] (b ∷ bs) = false
equal (x ∷ xs) [] = false
equal (x ∷ xs) (b ∷ bs) = (x == b) && equal xs bs

pub record DynamicTable : Type 0 where
  pub max_data_size : ℕ
  pub data_size : ℕ
  pub datas : List Pair

unfoldable pub new_table : DynamicTable
new_table = record { max_data_size = 4 * 1024; data_size = 0; datas = [] }

-- setMaxDataSize, which converts a uint32_t.
unfoldable pub set_max_data_size : ℕ → DynamicTable → DynamicTable
set_max_data_size v t = record t { max_data_size = v % 2 ^ 32 }

-- What an entry counts for.
abbrev pub entry_size : Pair → ℕ
entry_size p = length p.0 + length p.1 + 32

-- `a > b` of two int32_t
unfoldable pub greater : ℕ → ℕ → Bool
greater a b = ltb ((b + 2 ^ 31) % 2 ^ 32) ((a + 2 ^ 31) % 2 ^ 32)

-- `m_dataSize + len` and `m_dataSize -= ...`
abbrev pub plus32 : ℕ → ℕ → ℕ
plus32 a b = (a + b) % 2 ^ 32

abbrev pub minus32 : ℕ → ℕ → ℕ
minus32 a b = (a + (2 ^ 32 - b % 2 ^ 32)) % 2 ^ 32

-- The while loop of update: the oldest entry is the first.
unfoldable pub evict : ℕ → ℕ → ℕ → List Pair → ℕ × List Pair
evict limit len size [] = (size, [])
evict limit len size (p ∷ ps) =
    let rest : ℕ × List Pair = evict limit len (minus32 size (entry_size p)) ps in
    if greater (plus32 size len) limit then rest else (size, p ∷ ps)

unfoldable pub update : Bytes → Bytes → DynamicTable → DynamicTable
update name value t =
    let len : ℕ = (length name + length value + 32) % 2 ^ 32 in
    let (size, rest) = evict t.max_data_size len t.data_size t.datas in
    record t { data_size = plus32 size len; datas = rest ++ ((name, value) ∷ []) }

-- m_datas[len - i] for i = 0, 1, ...
abbrev pub backwards : List Pair → List Pair
backwards [] = []
backwards (p ∷ ps) = backwards ps ++ (p ∷ [])

-- The loop that looks for a name from index i on.
unfoldable pub scan_name : Bytes → ℕ → List Pair → Option ℕ
scan_name name i [] = none
scan_name name i (p ∷ ps) =
    let rest : Option ℕ = scan_name name (suc i) ps in if equal p.0 name then some i else rest

-- `if(rt.first == -1) rt.first = i;`
abbrev pub or_else : Option ℕ → ℕ → Option ℕ
or_else none i = some i
or_else (some k) i = some k

-- The loop that looks for a name and a value, from the result so far.
unfoldable pub scan_pair : Bytes → Bytes → ℕ → Option ℕ → List Pair → Option ℕ × Bool
scan_pair name value i first [] = (first, false)
scan_pair name value i first (p ∷ ps) =
    let skipped : Option ℕ × Bool = scan_pair name value (suc i) first ps in
    let noted : Option ℕ × Bool = scan_pair name value (suc i) (or_else first i) ps in
    if equal p.0 name then (if equal p.1 value then (some i, true) else noted) else skipped

unfoldable pub static_index : Bytes → Option ℕ
static_index name = elim static_headers [ [] ↦ none | p ∷ ps ↦ scan_name name 1 ps ]

unfoldable pub static_pair : Bytes → Bytes → Option ℕ × Bool
static_pair name value = scan_pair name value 0 none static_headers

unfoldable pub find_index : Bytes → DynamicTable → Option ℕ
find_index name t = elim (static_index name) [
  | none ↦ scan_name name 62 (backwards t.datas)
  | some k ↦ some k
]

unfoldable pub find_pair : Bytes → Bytes → DynamicTable → Option ℕ × Bool
find_pair name value t =
    let r : Option ℕ × Bool = static_pair name value in
    if r.1 then r else scan_pair name value 62 r.0 (backwards t.datas)

-- An element, or the pair of empty strings.
abbrev pub pair_or : Option Pair → Pair
pair_or none = ([], [])
pair_or (some p) = p

unfoldable pub get_pair : ℕ → DynamicTable → Pair
get_pair idx t =
    if ltb idx 62
    then pair_or (get_elem? static_headers idx)
    else if ltb (idx - 62) (length t.datas)
    then pair_or (get_elem? t.datas (length t.datas - (idx - 62) - 1))
    else ([], [])

unfoldable pub get_name : ℕ → DynamicTable → Bytes
get_name idx t = (get_pair idx t).0
