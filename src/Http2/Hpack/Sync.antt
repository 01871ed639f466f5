-- ===== src/Http2/Hpack/Sync.antt =====
-- The tables of the two ends of a connection stay equal.
use cpp_linux_server.Base.{
  ℕ, zero, suc, ◌≡◌, refl, sym, ap, ◌∙◌, List, [], ◌∷◌, ◌++◌, map, Bool, true, false, Option, none,
  some, arith, append_assoc, append-nil, lt→ltb, subst,
}
use cpp_linux_server.Http2.DynamicTable.Static.{Bytes, Pair}
use cpp_linux_server.Http2.DynamicTable.{DynamicTable, update, find_pair, get_name}
use cpp_linux_server.Http2.DynamicTable.Find.{Located, find_pair-Located}
use cpp_linux_server.Http2.Hpack.Fields.{
  Huffman, HeaderField, resolve, retable, Hpack, accept, choose_by, table_by, pack_fields,
  accept_all,
}

abbrev pub pair_of : HeaderField → Pair
pair_of h = (h.name, h.value)

-- One field: the receiver resolves it to the pair, and its table makes the step of the sender's.
resolve-choose_by :
    (hf : Huffman) (p : Pair) (r : Option ℕ × Bool) (t : DynamicTable)
    → Located p.0 p.1 t r
    → (pair_of (resolve (choose_by hf p r) t) ≡ p)
      × (retable (resolve (choose_by hf p r) t) t ≡ table_by p r t)
unfolding resolve retable choose_by table_by get_name
resolve-choose_by hf p (none, true) t l = absurd l
resolve-choose_by hf p (some k, true) t l = (l, refl)
resolve-choose_by hf p (some (suc k), false) t l =
    rw (lt→ltb 0 (suc k) (omega arith))
      (ap (λ (n : Bytes). (n, p.1)) l.0, ap (λ (n : Bytes). update n p.1 t) l.0)
resolve-choose_by hf p (some zero, false) t l = (refl, refl)
resolve-choose_by hf p (none, false) t l = (refl, refl)

map-append : (xs ys : List HeaderField) → map pair_of (xs ++ ys) ≡ map pair_of xs ++ map pair_of ys
map-append [] ys = refl
map-append (x ∷ xs) ys = ap (λ (zs : List Pair). pair_of x ∷ zs) (map-append xs ys)

-- Of any list of headers: where the receiver's table equals the sender's, the fields that pack
-- chooses are resolved by parse to those headers in order, and the tables are equal again.
pub accept_all-pack_fields :
    (hf : Huffman) (ps : List Pair) (sender receiver : Hpack)
    → receiver.table ≡ sender.table
    → (map pair_of (accept_all (pack_fields hf ps sender).0 receiver).headers
        ≡ map pair_of receiver.headers ++ ps)
      × ((accept_all (pack_fields hf ps sender).0 receiver).table
          ≡ (pack_fields hf ps sender).1.table)
unfolding accept_all pack_fields accept
accept_all-pack_fields hf [] s r e = (sym (append-nil (map pair_of r.headers)), e)
accept_all-pack_fields hf (p ∷ ps) s r e =
    let found : Option ℕ × Bool = find_pair p.0 p.1 s.table in
    let h : HeaderField = choose_by hf p found in
    let s' : Hpack = record { headers = s.headers ++ (h ∷ []); table = table_by p found s.table } in
    let full : HeaderField = resolve h r.table in
    let r' : Hpack = record { headers = r.headers ++ (full ∷ []); table = retable full r.table } in
    let (a, b) =
      subst
        (λ t. (pair_of (resolve h t) ≡ p) × (retable (resolve h t) t ≡ table_by p found s.table))
        (sym e) (resolve-choose_by hf p found s.table (find_pair-Located p.0 p.1 s.table)) in
    let (c, d) = accept_all-pack_fields hf ps s' r' b in
    (
      c
          ∙ ap (λ (zs : List Pair). zs ++ ps) (map-append r.headers (full ∷ []))
          ∙ append_assoc (map pair_of r.headers) (pair_of full ∷ []) ps
          ∙ ap (λ (q : Pair). map pair_of r.headers ++ (q ∷ ps)) a,
      d,
    )
