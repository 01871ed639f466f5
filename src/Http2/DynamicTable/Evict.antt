-- ===== src/Http2/DynamicTable/Evict.antt =====
-- Eviction of the dynamic table.
use cpp_linux_server.Base.{
  ℕ, zero, suc, ◌+◌, ◌-◌, ◌%◌, ◌^◌, ◌≤◌, ◌<◌, ◌≡◌, refl, ap, ◌∙◌, List, [], ◌∷◌, ◌++◌, length, drop,
  arith, lt→ltb, le→ltb, le-cases, inl, inr, ◌⊎◌, true, false,
}
use cpp_linux_server.Http2.DynamicTable.Static.{Bytes, Pair}
use cpp_linux_server.Http2.DynamicTable.{
  DynamicTable, entry_size, greater, plus32, minus32, evict, update,
}

-- The size that the entries count for.
abbrev pub total : List Pair → ℕ
total [] = 0
total (p ∷ ps) = entry_size p + total ps

-- m_dataSize is the size of the entries.
abbrev pub IsCounted : DynamicTable → Type 0
IsCounted t = t.data_size ≡ total t.datas

total-append : (ps qs : List Pair) → total (ps ++ qs) ≡ total ps + total qs
total-append [] qs = omega arith
total-append (p ∷ ps) qs = omega (arith, total-append ps qs)

-- What is left when the first `k` are gone: it leaves room, or nothing is left; and without the
-- last of the evicted there was no room.
pub record Evicted (limit len : ℕ) (ps : List Pair) (k : ℕ) : Type 0 where
  pub within : k ≤ length ps
  pub fits : (total (drop k ps) + len ≤ limit) ⊎ (drop k ps ≡ [])
  pub needed : (j : ℕ) → j < k → limit < total (drop j ps) + len

needed_later :
    (limit len : ℕ) (p : Pair) (ps : List Pair) (k : ℕ)
    → limit < total (p ∷ ps) + len
    → ((j : ℕ) → j < k → limit < total (drop j ps) + len)
    → (j : ℕ) → j < suc k
    → limit < total (drop j (p ∷ ps)) + len
needed_later limit len p ps k now later zero l = now
needed_later limit len p ps k now later (suc j) l = later j (omega arith)

greater-true : (a b : ℕ) → b < a → a < 2 ^ 31 → greater a b ≡ true
unfolding greater
greater-true a b h small = lt→ltb _ _ (omega arith)

greater-false : (a b : ℕ) → a ≤ b → b < 2 ^ 31 → greater a b ≡ false
unfolding greater
greater-false a b h small = le→ltb _ _ (omega arith)

plus32-small : (a b : ℕ) → a + b < 2 ^ 31 → plus32 a b ≡ a + b
plus32-small a b h = omega arith

minus32-small : (a b : ℕ) → b ≤ a → a < 2 ^ 31 → minus32 a b ≡ a - b
minus32-small a b h small = omega arith

evict_lem :
    (limit len size : ℕ) (ps : List Pair)
    → limit < 2 ^ 31
    → size + len < 2 ^ 31
    → size ≡ total ps
    → (k : ℕ) × (evict limit len size ps ≡ (total (drop k ps), drop k ps)) × Evicted limit len ps k
unfolding evict
evict_lem limit len size [] low room h = (
  0,
  ap (λ s. (s, [])) h,
  record { within = omega arith; fits = inr refl; needed = λ j l. absurd (omega arith) },
)
evict_lem limit len size (p ∷ ps) low room h = elim (le-cases (size + len) limit) [
  | inl small ↦ (
    0,
    rw (plus32-small size len room, greater-false (size + len) limit small low)
        (ap (λ s. (s, p ∷ ps)) h),
    record { within = omega arith; fits = inl (omega arith); needed = λ j l. absurd (omega arith) },
  )
  | inr big ↦
      let (k, e, v) =
        evict_lem limit len (size - entry_size p) ps low (omega arith) (omega arith) in
      (
        suc k,
        rw (plus32-small size len room, greater-true (size + len) limit big room)
            (ap (λ (n : ℕ). evict limit len n ps)
                (minus32-small size (entry_size p) (omega arith) (omega arith))
              ∙ e),
        record {
          within = omega (arith, v.within);
          fits = v.fits;
          needed = needed_later limit len p ps k (omega arith) v.needed;
        },
      )
]

total-drop : (k : ℕ) (ps : List Pair) → total (drop k ps) ≤ total ps
total-drop zero ps = omega arith
total-drop (suc k) [] = omega arith
total-drop (suc k) (p ∷ ps) = omega (arith, total-drop k ps)

-- What update makes of a table: the size still counts the entries, the evicted are the oldest and
-- no more than are needed, the new entry is the last.
pub record Updated (name value : Bytes) (t t' : DynamicTable) : Type 0 where
  pub counted : IsCounted t'
  pub limit_eq : t'.max_data_size ≡ t.max_data_size
  pub evicted : ℕ
  pub datas_eq : t'.datas ≡ drop evicted t.datas ++ ((name, value) ∷ [])
  pub least : Evicted t.max_data_size (entry_size (name, value)) t.datas evicted
  pub bounded : (t'.data_size ≤ t'.max_data_size) ⊎ (t'.datas ≡ (name, value) ∷ [])

-- update on a table whose size counts its entries, where the limit, and the size with the new entry, are below 2^31:
-- it evicts the least number of the oldest entries that makes room, or all where none makes room, then appends;
-- the size counts the entries again and is at most the limit unless the new entry is alone.
pub update_lem :
    (name value : Bytes) (t : DynamicTable)
    → IsCounted t
    → t.max_data_size < 2 ^ 31
    → t.data_size + entry_size (name, value) < 2 ^ 31
    → Updated name value t (update name value t)
unfolding update
update_lem name value t h low room =
    let new : Pair = (name, value) in
    let len_eq : entry_size new % 2 ^ 32 ≡ entry_size new = omega arith in
    let (k, e, v) = evict_lem t.max_data_size (entry_size new) t.data_size t.datas low room h in
    let both : total (drop k t.datas ++ (new ∷ [])) ≡ total (drop k t.datas) + entry_size new =
      omega (arith, total-append (drop k t.datas) (new ∷ [])) in
    let size_eq : (evict t.max_data_size (entry_size new) t.data_size t.datas).0
        ≡ total (drop k t.datas) =
      ap (λ (r : ℕ × List Pair). r.0) e in
    let rest_eq : (evict t.max_data_size (entry_size new) t.data_size t.datas).1 ≡ drop k t.datas =
      ap (λ (r : ℕ × List Pair). r.1) e in
    let kept : total (drop k t.datas) ≤ total t.datas = total-drop k t.datas in
    rw len_eq (record {
      counted =
          omega
            (arith, kept, both, size_eq, ap (λ (r : List Pair). total (r ++ (new ∷ []))) rest_eq);
      limit_eq = refl;
      evicted = k;
      datas_eq = ap (λ (r : List Pair). r ++ (new ∷ [])) rest_eq;
      least = v;
      bounded = elim v.fits [
        | inl fits ↦ inl (omega (arith, kept, size_eq, fits))
        | inr none_left ↦ inr (ap (λ (r : List Pair). r ++ (new ∷ [])) (rest_eq ∙ none_left))
      ];
    })
