-- ===== src/Http2/DynamicTable/Scan.antt =====
-- The loops of find_pair and find_index over one table.
use cpp_linux_server.Base.{
  ℕ, zero, suc, ◌+◌, ◌-◌, ◌<◌, ◌≡◌, ◌≢◌, refl, sym, ap, ◌∙◌, List, [], ◌∷◌, ◌++◌, length, arith,
  ◌==◌, le-cases, inl, inr, ◌⊎◌, length-append, get_elem?, Bool, true, false, ◌&&◌, Option, none,
  some, All, Bool-cases, ==_iff, append-nil, append_assoc,
}
use cpp_linux_server.Http2.DynamicTable.Static.{Bytes, Pair}
use cpp_linux_server.Http2.DynamicTable.{equal, or_else, backwards, scan_pair}

equal_refl : (xs : Bytes) → equal xs xs ≡ true
equal_refl [] = refl
equal_refl (x ∷ xs) = rw ((==_iff x x).1 refl) (equal_refl xs)

pub equal→≡ : (xs ys : Bytes) → equal xs ys ≡ true → xs ≡ ys
equal→≡ [] [] h = refl
equal→≡ [] (y ∷ ys) h = absurd (ground arith)
equal→≡ (x ∷ xs) [] h = absurd (ground arith)
equal→≡ (x ∷ xs) (y ∷ ys) h = elim (Bool-cases (x == y)) [
  | inl e ↦
      let same : x ≡ y = (==_iff x y).0 e in
      let rest : xs ≡ ys = equal→≡ xs ys (sym (ap (λ b. b && equal xs ys) e) ∙ h) in
      λ i. same i ∷ rest i
  | inr e ↦ absurd (cc (e, h))
]

pub get_elem?-append-left :
    (xs ys : List Pair) (j : ℕ) → j < length xs → get_elem? (xs ++ ys) j ≡ get_elem? xs j
get_elem?-append-left [] ys j h = absurd (omega arith)
get_elem?-append-left (x ∷ xs) ys zero h = refl
get_elem?-append-left (x ∷ xs) ys (suc j) h = get_elem?-append-left xs ys j (omega arith)

get_elem?-append-right :
    (xs ys : List Pair) (k j : ℕ) → k ≡ length xs + j → get_elem? (xs ++ ys) k ≡ get_elem? ys j
get_elem?-append-right [] ys k j h = ap (λ i. get_elem? ys i) (omega arith)
get_elem?-append-right (x ∷ xs) ys zero j h = absurd (omega arith)
get_elem?-append-right (x ∷ xs) ys (suc k) j h = get_elem?-append-right xs ys k j (omega arith)

pub get_elem?-length : (xs : List Pair) (j : ℕ) (p : Pair) → get_elem? xs j ≡ some p → j < length xs
get_elem?-length [] j p h = absurd (ground arith)
get_elem?-length (x ∷ xs) zero p h = omega arith
get_elem?-length (x ∷ xs) (suc j) p h = omega (arith, get_elem?-length xs j p h)

pub length-backwards : (ps : List Pair) → length (backwards ps) ≡ length ps
length-backwards [] = refl
length-backwards (p ∷ ps) =
    omega (arith, length-append {0} (backwards ps) (p ∷ []), length-backwards ps)

-- The element that the loop sees at its step j.
pub get_elem?-backwards :
    (ps : List Pair) (j : ℕ)
    → j < length ps
    → get_elem? (backwards ps) j ≡ get_elem? ps (length ps - j - 1)
get_elem?-backwards [] j h = absurd (omega arith)
get_elem?-backwards (p ∷ ps) j h = elim (le-cases (length ps) j) [
  | inl last ↦
      let e : suc (length ps) - j - 1 ≡ 0 = omega arith in
      rw e (get_elem?-append-right (backwards ps) (p ∷ []) j 0 (omega (arith, length-backwards ps)))
  | inr early ↦
      let e : suc (length ps) - j - 1 ≡ suc (length ps - j - 1) = omega arith in
      rw e (
        get_elem?-append-left (backwards ps) (p ∷ []) j (omega (arith, length-backwards ps))
        ∙ get_elem?-backwards ps j early)
]

All-left {κ} : (P : Pair → Type κ) (xs ys : List Pair) → All P (xs ++ ys) → All P xs × All P ys
All-left P [] ys h = (tt, h)
All-left P (x ∷ xs) ys h = let (l, r) = All-left P xs ys h.1 in ((h.0, l), r)

pub All-backwards {κ} : (P : Pair → Type κ) (ps : List Pair) → All P (backwards ps) → All P ps
All-backwards P [] h = tt
All-backwards P (p ∷ ps) h =
    let (l, r) = All-left P (backwards ps) (p ∷ []) h in (r.0, All-backwards P ps l)

-- What the loop of static_pair and find_pair has found from index i on, with `first` before it.
abbrev pub Scanned : Bytes → Bytes → ℕ → Option ℕ → List Pair → Option ℕ × Bool → Type 0
Scanned name value i first ps (none, true) = ⊥
Scanned name value i first ps (some k, true) =
    (j : ℕ) × (k ≡ i + j) × (get_elem? ps j ≡ some (name, value))
Scanned name value i first ps (none, false) = (first ≡ none) × All (λ p. name ≢ p.0) ps
Scanned name value i first ps (some k, false) =
    All (λ p. (name, value) ≢ p) ps
    × ((first ≡ some k) ⊎ ((j : ℕ) × (v : Bytes) × (k ≡ i + j) × (get_elem? ps j ≡ some (name, v))))

Scanned-skip :
    (name value : Bytes) (i : ℕ) (first : Option ℕ) (p : Pair) (ps : List Pair)
    (r : Option ℕ × Bool)
    → name ≢ p.0
    → Scanned name value (suc i) first ps r
    → Scanned name value i first (p ∷ ps) r
Scanned-skip name value i first p ps (none, true) n h = h
Scanned-skip name value i first p ps (some k, true) n (j, e, g) = (suc j, omega arith, g)
Scanned-skip name value i first p ps (none, false) n h = (h.0, (n, h.1))
Scanned-skip name value i first p ps (some k, false) n (a, inl e) =
    ((λ q. n (ap (λ (x : Pair). x.0) q), a), inl e)
Scanned-skip name value i first p ps (some k, false) n (a, inr (j, v, e, g)) =
    ((λ q. n (ap (λ (x : Pair). x.0) q), a), inr (suc j, v, omega arith, g))

Scanned-note :
    (name value : Bytes) (i : ℕ) (first : Option ℕ) (p : Pair) (ps : List Pair)
    (r : Option ℕ × Bool)
    → p.0 ≡ name
    → value ≢ p.1
    → Scanned name value (suc i) (or_else first i) ps r
    → Scanned name value i first (p ∷ ps) r
Scanned-note name value i first p ps (none, true) same n h = h
Scanned-note name value i first p ps (some k, true) same n (j, e, g) = (suc j, omega arith, g)
Scanned-note name value i none p ps (none, false) same n h = absurd (cc h.0)
Scanned-note name value i (some f) p ps (none, false) same n h = absurd (cc h.0)
Scanned-note name value i none p ps (some k, false) same n (a, inl e) = (
  (λ q. n (ap (λ (x : Pair). x.1) q), a),
  inr (0, p.1, omega (arith, some-inj e), ap (λ x. some (x, p.1)) same),
)
  where
    some-inj : {x y : ℕ} → some x ≡ some y → y ≡ x
    some-inj q = cc q
Scanned-note name value i (some f) p ps (some k, false) same n (a, inl e) =
    ((λ q. n (ap (λ (x : Pair). x.1) q), a), inl e)
Scanned-note name value i first p ps (some k, false) same n (a, inr (j, v, e, g)) =
    ((λ q. n (ap (λ (x : Pair). x.1) q), a), inr (suc j, v, omega arith, g))

pub different : (xs ys : Bytes) → equal xs ys ≡ false → ys ≢ xs
different xs ys h e = absurd (cc (h, equal_refl xs, e))

pub scan_pair-Scanned :
    (name value : Bytes) (i : ℕ) (first : Option ℕ) (ps : List Pair)
    → Scanned name value i first ps (scan_pair name value i first ps)
unfolding scan_pair
scan_pair-Scanned name value i none [] = (refl, tt)
scan_pair-Scanned name value i (some k) [] = (tt, inl refl)
scan_pair-Scanned name value i first (p ∷ ps) = elim (Bool-cases (equal p.0 name)) [
  | inr e ↦ rw e (
      Scanned-skip name value i first p ps (scan_pair name value (suc i) first ps)
        (different p.0 name e) (scan_pair-Scanned name value (suc i) first ps))
  | inl e ↦ elim (Bool-cases (equal p.1 value)) [
    | inl f ↦
        rw (e, f) (0, omega arith, λ k. some ((equal→≡ p.0 name e) k, (equal→≡ p.1 value f) k))
    | inr f ↦
        rw (e, f)
          (Scanned-note name value i first p ps (scan_pair name value (suc i) (or_else first i) ps)
            (equal→≡ p.0 name e) (different p.1 value f)
            (scan_pair-Scanned name value (suc i) (or_else first i) ps))
  ]
]

pub backwards-append : (ps qs : List Pair) → backwards (ps ++ qs) ≡ backwards qs ++ backwards ps
backwards-append [] qs = sym (append-nil (backwards qs))
backwards-append (p ∷ ps) qs =
    ap (λ (r : List Pair). r ++ (p ∷ [])) (backwards-append ps qs)
    ∙ append_assoc (backwards qs) (backwards ps) (p ∷ [])
