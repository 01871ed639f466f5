-- ===== src/Http2/DynamicTable/Find.antt =====
-- Lookup in the two tables: what a result of find_pair says of get_pair.
use cpp_linux_server.Base.{
  ℕ, ◌+◌, ◌-◌, ◌<◌, ◌≡◌, ◌≢◌, refl, sym, ap, List, [], ◌∷◌, length, arith, if◌then◌else◌, lt→ltb,
  le→ltb, inl, inr, get_elem?, Bool, true, false, Option, none, some, All,
}
use cpp_linux_server.Http2.DynamicTable.Static.{Bytes, Pair, static_headers}
use cpp_linux_server.Http2.DynamicTable.{
  DynamicTable, get_pair, get_name, backwards, scan_pair, static_pair, find_pair,
}
use cpp_linux_server.Http2.DynamicTable.Scan.{
  Scanned, scan_pair-Scanned, get_elem?-backwards, get_elem?-length, length-backwards,
  All-backwards,
}

static-length : length static_headers ≡ 62
unfolding static_headers
static-length = refl

get_pair-static :
    (t : DynamicTable) (j : ℕ) (p : Pair) → get_elem? static_headers j ≡ some p → get_pair j t ≡ p
unfolding get_pair
get_pair-static t j p h =
    rw (lt→ltb j 62 (omega (arith, static-length, get_elem?-length static_headers j p h)), h) refl

pub get_pair-dynamic :
    (t : DynamicTable) (j : ℕ) (p : Pair)
    → get_elem? (backwards t.datas) j ≡ some p
    → get_pair (62 + j) t ≡ p
unfolding get_pair
get_pair-dynamic t j p h =
    let inside : j < length t.datas =
      omega (arith, get_elem?-length (backwards t.datas) j p h, length-backwards t.datas) in
    let behind : 62 + j - 62 ≡ j = omega arith in
    rw
      (
        le→ltb (62 + j) 62 (omega arith),
        behind,
        lt→ltb j (length t.datas) inside,
        sym (get_elem?-backwards t.datas j inside),
        h,
      )
      refl

-- What a result of find_pair says: a match is where get_pair has the pair; an index without a match
-- is where it has the name, and no entry is the pair; no index means that no entry has the name.
abbrev pub Located : Bytes → Bytes → DynamicTable → Option ℕ × Bool → Type 0
Located name value t (none, true) = ⊥
Located name value t (some k, true) = get_pair k t ≡ (name, value)
Located name value t (none, false) =
    All (λ (p : Pair). name ≢ p.0) static_headers × All (λ (p : Pair). name ≢ p.0) t.datas
Located name value t (some k, false) =
    (get_name k t ≡ name)
    × All (λ (p : Pair). (name, value) ≢ p) static_headers
    × All (λ (p : Pair). (name, value) ≢ p) t.datas

-- No entry of the name is no entry of the pair.
All-absent :
    (name value : Bytes) (ps : List Pair)
    → All (λ (p : Pair). name ≢ p.0) ps
    → All (λ (p : Pair). (name, value) ≢ p) ps
All-absent name value [] h = tt
All-absent name value (p ∷ ps) h =
    ((λ q. h.0 (ap (λ (x : Pair). x.0) q)), All-absent name value ps h.1)

static-Located :
    (name value : Bytes) (t : DynamicTable) (k : Option ℕ)
    → Scanned name value 0 none static_headers (k, true)
    → Located name value t (k, true)
static-Located name value t none h = h
static-Located name value t (some k) (j, e, g) =
    let same : k ≡ j = omega arith in rw same (get_pair-static t j (name, value) g)

static_name :
    (name v : Bytes) (t : DynamicTable) (k j : ℕ)
    → k ≡ 0 + j
    → get_elem? static_headers j ≡ some (name, v)
    → get_name k t ≡ name
unfolding get_name
static_name name v t k j e g =
    let same : k ≡ j = omega arith in
    rw same (ap (λ (p : Pair). p.0) (get_pair-static t j (name, v) g))

dynamic_name :
    (name v : Bytes) (t : DynamicTable) (k j : ℕ)
    → k ≡ 62 + j
    → get_elem? (backwards t.datas) j ≡ some (name, v)
    → get_name k t ≡ name
unfolding get_name
dynamic_name name v t k j e g = rw e (ap (λ (p : Pair). p.0) (get_pair-dynamic t j (name, v) g))

both-Located :
    (name value : Bytes) (t : DynamicTable) (first : Option ℕ) (r : Option ℕ × Bool)
    → Scanned name value 0 none static_headers (first, false)
    → Scanned name value 62 first (backwards t.datas) r
    → Located name value t r
both-Located name value t first (none, true) s d = d
both-Located name value t first (some k, true) s (j, e, g) =
    rw e (get_pair-dynamic t j (name, value) g)
both-Located name value t none (none, false) s d =
    (s.1, All-backwards (λ (p : Pair). name ≢ p.0) t.datas d.1)
both-Located name value t (some f) (none, false) s d = absurd (cc d.0)
both-Located name value t none (some k, false) s (a, inl e) = absurd (cc e)
both-Located name value t none (some k, false) s (a, inr (j, v, e, g)) = (
  dynamic_name name v t k j e g,
  All-absent name value static_headers s.1,
  All-backwards (λ (p : Pair). (name, value) ≢ p) t.datas a,
)
both-Located name value t (some f) (some k, false) (o, inl q) d = absurd (cc q)
both-Located name value t (some f) (some k, false) (o, inr (i, v, p, q)) (a, inl e) = (
  static_name name v t k i (cc (e, p)) q,
  o,
  All-backwards (λ (p : Pair). (name, value) ≢ p) t.datas a,
)
both-Located name value t (some f) (some k, false) (o, inr s) (a, inr (j, v, e, g)) =
    (dynamic_name name v t k j e g, o, All-backwards (λ (p : Pair). (name, value) ≢ p) t.datas a)

-- find_pair over both tables, on every input: an index with a match is where get_pair has that
-- pair; an index without one is where get_name has the name, and the pair is in neither table; no
-- index means that the name is in neither table.
pub find_pair-Located :
    (name value : Bytes) (t : DynamicTable) → Located name value t (find_pair name value t)
unfolding find_pair static_pair
find_pair-Located name value t =
    go (scan_pair name value 0 none static_headers)
      (scan_pair-Scanned name value 0 none static_headers)
  where
    go :
        (r : Option ℕ × Bool)
        → Scanned name value 0 none static_headers r
        → Located name value t (if r.1 then r else scan_pair name value 62 r.0 (backwards t.datas))
    go (k, true) h = static-Located name value t k h
    go (k, false) h =
        both-Located name value t k (scan_pair name value 62 k (backwards t.datas)) h
          (scan_pair-Scanned name value 62 k (backwards t.datas))
