-- ===== src/Http2/DynamicTable/Runs.antt =====
-- Concrete tables, and the theorems at concrete inputs.
use cpp_linux_server.Base.{◌≡◌, ◌-◌, ◌^◌, refl, [], ◌∷◌, arith, some, true, false}
use cpp_linux_server.Http2.DynamicTable.Static.{static_headers, bytes, entry}
use cpp_linux_server.Http2.DynamicTable.{
  DynamicTable, new_table, update, evict, find_pair, find_index, static_index, static_pair,
  scan_pair, scan_name, get_pair, greater, set_max_data_size,
}
use cpp_linux_server.Http2.DynamicTable.Evict.{Updated, update_lem}
use cpp_linux_server.Http2.DynamicTable.Find.{Located, find_pair-Located}
use cpp_linux_server.Http2.DynamicTable.Shift.{get_pair-update}

-- A table of one entry with room for one more.
abbrev one_entry : DynamicTable
one_entry = record { max_data_size = 70; data_size = 34; datas = ((1 ∷ []), (2 ∷ [])) ∷ [] }

find_pair_method : find_pair (bytes "accept") (bytes "gzip") one_entry ≡ (some 19, false)
unfolding find_pair static_pair scan_pair static_headers entry bytes
find_pair_method = refl

find_index_dynamic : find_index (1 ∷ []) one_entry ≡ some 62
unfolding find_index static_index scan_name static_headers entry bytes
find_index_dynamic = refl

-- The empty name is found in the unused entry 0 of the static table.
find_pair_empty : find_pair [] [] new_table ≡ (some 0, true)
unfolding find_pair static_pair scan_pair static_headers entry bytes
find_pair_empty = refl

-- An entry that is larger than the whole table is added all the same.
update_too_large :
    update (3 ∷ []) (4 ∷ []) (record one_entry { max_data_size = 10 })
    ≡ record { max_data_size = 10; data_size = 34; datas = ((3 ∷ []), (4 ∷ [])) ∷ [] }
unfolding update evict greater
update_too_large = refl

update_lem_example : Updated (3 ∷ []) (4 ∷ []) one_entry (update (3 ∷ []) (4 ∷ []) one_entry)
update_lem_example = update_lem (3 ∷ []) (4 ∷ []) one_entry refl (omega arith) (omega arith)

find_pair-Located_example :
    Located (1 ∷ []) (2 ∷ []) one_entry (find_pair (1 ∷ []) (2 ∷ []) one_entry)
find_pair-Located_example = find_pair-Located (1 ∷ []) (2 ∷ []) one_entry

-- There is room for both entries, and the first moves up.
get_pair-update_example : get_pair 63 (update (3 ∷ []) (4 ∷ []) one_entry) ≡ get_pair 62 one_entry
unfolding update evict greater
get_pair-update_example = get_pair-update (3 ∷ []) (4 ∷ []) one_entry 1 (omega arith)

-- A limit of 2^32 - 1, as a peer may send it, is the int32_t -1: it holds nothing.
update_negative_limit :
    (update (3 ∷ []) (4 ∷ []) (set_max_data_size (2 ^ 32 - 1) one_entry)).datas
    ≡ ((3 ∷ []), (4 ∷ [])) ∷ []
unfolding update evict greater set_max_data_size
update_negative_limit = refl
