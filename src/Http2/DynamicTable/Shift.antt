-- ===== src/Http2/DynamicTable/Shift.antt =====
-- What update does to the indices of the dynamic table.
use cpp_linux_server.Base.{
  ℕ, zero, suc, ◌+◌, ◌<◌, ◌≡◌, refl, sym, ap, ◌∙◌, List, [], ◌∷◌, ◌++◌, length, drop, arith, take,
  take-append-drop, get_elem?, get_elem?-exists, some, Bool-cases, inl, inr, length-append,
}
use cpp_linux_server.Http2.DynamicTable.Static.{Bytes, Pair}
use cpp_linux_server.Http2.DynamicTable.{
  DynamicTable, get_pair, backwards, entry_size, greater, plus32, minus32, evict, update,
}
use cpp_linux_server.Http2.DynamicTable.Scan.{
  get_elem?-append-left, length-backwards, backwards-append,
}
use cpp_linux_server.Http2.DynamicTable.Find.{get_pair-dynamic}

-- Eviction leaves a tail of the entries, whatever the sizes are.
evict-drop :
    (limit len size : ℕ) (ps : List Pair) → (k : ℕ) × ((evict limit len size ps).1 ≡ drop k ps)
unfolding evict
evict-drop limit len size [] = (0, refl)
evict-drop limit len size (p ∷ ps) = elim (Bool-cases (greater (plus32 size len) limit)) [
  | inl full ↦
      let (k, e) = evict-drop limit len (minus32 size (entry_size p)) ps in (suc k, rw full e)
  | inr room ↦ (0, rw room refl)
]

update-datas :
    (name value : Bytes) (t : DynamicTable)
    → (k : ℕ) × ((update name value t).datas ≡ drop k t.datas ++ ((name, value) ∷ []))
unfolding update
update-datas name value t =
    let (k, e) = evict-drop t.max_data_size _ t.data_size t.datas in
    (k, ap (λ (r : List Pair). r ++ ((name, value) ∷ [])) e)

-- What stands at the dynamic index j behind an update: the new entry first, then those of before.
abbrev pub shifted : Bytes → Bytes → DynamicTable → ℕ → Pair
shifted name value t zero = (name, value)
shifted name value t (suc j) = get_pair (62 + j) t

-- Behind an update of any table, the empty one too, getPair has the new entry at the index 62, and at the index
-- 63 + j, as long as the table has so many entries, the pair that it had at 62 + j before.
pub get_pair-update :
    (name value : Bytes) (t : DynamicTable) (j : ℕ)
    → j < length (update name value t).datas
    → get_pair (62 + j) (update name value t) ≡ shifted name value t j
get_pair-update name value t j h =
    let (k, e) = update-datas name value t in
    let kept : List Pair = drop k t.datas in
    let gone : List Pair = take k t.datas in
    let new : Pair = (name, value) in
    let shape : backwards (update name value t).datas ≡ new ∷ backwards kept =
      ap (λ (r : List Pair). backwards r) e ∙ backwards-append kept (new ∷ []) in
    let whole : backwards t.datas ≡ backwards kept ++ backwards gone =
      ap (λ (r : List Pair). backwards r) (sym (take-append-drop {0} k t.datas))
      ∙ backwards-append gone kept in
    let long : length (update name value t).datas ≡ length kept + 1 =
      ap (λ (r : List Pair). length r) e ∙ length-append {0} kept (new ∷ []) in
    at_index kept gone shape whole j (omega (arith, long))
  where
    at_index :
        (kept gone : List Pair)
        → backwards (update name value t).datas ≡ (name, value) ∷ backwards kept
        → backwards t.datas ≡ backwards kept ++ backwards gone
        → (i : ℕ) → i < length kept + 1
        → get_pair (62 + i) (update name value t) ≡ shifted name value t i
    at_index kept gone shape whole zero h =
        get_pair-dynamic (update name value t) 0 (name, value)
          (ap (λ (r : List Pair). get_elem? r 0) shape)
    at_index kept gone shape whole (suc i) h =
        let inside : i < length (backwards kept) = omega (arith, length-backwards kept) in
        let (p, e) = get_elem?-exists {0} (backwards kept) i inside in
        let old : get_elem? (backwards t.datas) i ≡ some p =
          ap (λ (r : List Pair). get_elem? r i) whole
          ∙ get_elem?-append-left (backwards kept) (backwards gone) i inside
          ∙ e in
        get_pair-dynamic (update name value t) (suc i) p
          (ap (λ (r : List Pair). get_elem? r (suc i)) shape ∙ e)
        ∙ sym (get_pair-dynamic t i p old)
