-- ===== src/ByteArray/Blocks.antt =====
-- The loops of write and read over blocks of one size act on the joined bytes.
use cpp_linux_server.Base.{
  ℕ, zero, suc, ◌+◌, ◌-◌, ◌*◌, ◌/◌, ◌≤◌, ◌<◌, ◌≡◌, refl, ap, List, [], ◌∷◌, ◌++◌, some, inl, inr,
  length, take, drop, All, concat, length-append, length-take, length-drop, take-append_le,
  drop-append_le, drop-append_ge, drop_all, append_assoc, le-cases, take-append-drop, append-nil,
  ◌∙◌, take_all, slice_within, slice_across, arith, ◌==◌, if◌then◌else◌,
}
use cpp_linux_server.ByteArray.{write_loop, read_loop, splice}
use native.Mathlib.Nat.{add-div_left, div-eq_of_lt, div_self}

abbrev pub AreBlocks : ℕ → List (List ℕ) → Type 0
AreBlocks n = All (λ b. length b ≡ n)

-- One round of the loop of read, where the rest fits the block and where it does not.
read_round_last :
    (b : List ℕ) (bs : List (List ℕ)) (npos k : ℕ)
    → npos ≤ length b
    → npos + suc k ≤ length b
    → read_loop (b ∷ bs) npos (suc k)
      ≡ some (take (suc k) (drop npos b), if length b == npos + suc k then 1 else 0)
unfolding read_loop
read_round_last b bs npos k o f = ground arith

read_round_more :
    (b : List ℕ) (bs : List (List ℕ)) (npos k m moved : ℕ) (bytes : List ℕ)
    → npos ≤ length b
    → npos + k ≡ length b + suc m
    → read_loop bs 0 (suc m) ≡ some (bytes, moved)
    → read_loop (b ∷ bs) npos k ≡ some (take (length b - npos) (drop npos b) ++ bytes, suc moved)
unfolding read_loop
read_round_more b bs npos k m moved bytes o f e =
    let rest : k - (length b - npos) ≡ suc m = omega arith in ground arith

moved_last : (n l e : ℕ) → l ≡ n → e ≤ n → 0 < n → (if l == e then 1 else 0) ≡ e / n
moved_last n l e h le p = elim (le-cases n e) [
  | inl ge ↦ let q : e ≡ n = omega arith in rw (q, h, div_self p) (ground arith)
  | inr lt ↦ rw (div-eq_of_lt lt) (ground arith)
]

moved_more : (n e m : ℕ) → e ≡ n + m → 0 < n → e / n ≡ suc (m / n)
moved_more n e m h p = rw (h, add-div_left m p) (omega arith)

-- read copies out the joined bytes from the offset on, and m_cur moves by whole blocks.
pub read_loop_lem :
    (n : ℕ) (blocks : List (List ℕ)) (npos k : ℕ)
    → AreBlocks n blocks
    → npos < n
    → npos + k ≤ length blocks * n
    → 0 < length blocks
    → read_loop blocks npos k ≡ some (take k (drop npos (concat blocks)), (npos + k) / n)
read_loop_lem n [] npos k v o f p = absurd (omega arith)
read_loop_lem n (b ∷ bs) npos zero v o f p =
    rw (div-eq_of_lt {n = npos + 0} {m = n} (omega arith)) (unfold read_loop in refl)
read_loop_lem n (b ∷ bs) npos (suc k) v o f p = elim (le-cases (npos + suc k) (length b)) [
  | inl fits ↦ rw (
    read_round_last b bs npos k (omega arith) fits,
    moved_last n (length b) (npos + suc k) v.0 (omega arith) (omega arith),
    slice_within npos (suc k) b (concat bs) fits,
  )
  | inr more ↦
      let m : ℕ = npos + k - length b in
      let rest : read_loop bs 0 (suc m) ≡ some (take (suc m) (concat bs), (0 + suc m) / n) =
        read_loop_lem n bs 0 (suc m) v.1 (omega arith) (omega arith) (grind arith) in
      rw (
        read_round_more b bs npos (suc k) m ((0 + suc m) / n) (take (suc m) (concat bs))
            (omega arith) (omega arith) rest,
        moved_more n (npos + suc k) (0 + suc m) (omega arith) (omega arith),
        slice_across npos (suc k) (suc m) b (concat bs) (omega arith) (omega arith),
        take_all (length b - npos) (drop npos b) (omega (arith, length-drop npos b)),
      )
]

-- One round of the loop of write.
write_round_last :
    (b : List ℕ) (bs : List (List ℕ)) (npos : ℕ) (buf : List ℕ)
    → npos ≤ length b
    → npos + length buf ≤ length b
    → write_loop (b ∷ bs) npos buf
      ≡ some (splice npos buf b ∷ bs, if length b == npos + length buf then 1 else 0)
unfolding write_loop
write_round_last b bs npos buf o f = ground arith

write_round_more :
    (b : List ℕ) (bs bs' : List (List ℕ)) (npos moved : ℕ) (buf : List ℕ)
    → npos ≤ length b
    → length b < npos + length buf
    → write_loop bs 0 (drop (length b - npos) buf) ≡ some (bs', moved)
    → write_loop (b ∷ bs) npos buf
      ≡ some (splice npos (take (length b - npos) buf) b ∷ bs', suc moved)
unfolding write_loop
write_round_more b bs bs' npos moved buf o f e = ground arith

pub length-splice :
    (i : ℕ) (buf xs : List ℕ) → i + length buf ≤ length xs → length (splice i buf xs) ≡ length xs
length-splice i buf xs h = omega (
  arith,
  length-append {0} (take i xs) (buf ++ drop (i + length buf) xs),
  length-append {0} buf (drop (i + length buf) xs),
  length-take {0} i xs (omega arith),
  length-drop {0} (i + length buf) xs,
)

splice_within :
    (i : ℕ) (buf xs ys : List ℕ)
    → i + length buf ≤ length xs
    → splice i buf (xs ++ ys) ≡ splice i buf xs ++ ys
splice_within i buf xs ys h = rw (
  take-append_le i xs ys (omega arith),
  drop-append_le (i + length buf) xs ys h,
  append_assoc (take i xs) (buf ++ drop (i + length buf) xs) ys,
  append_assoc buf (drop (i + length buf) xs) ys,
)

splice_across :
    (i : ℕ) (buf xs ys : List ℕ)
    → i ≤ length xs
    → length xs < i + length buf
    → splice i buf (xs ++ ys)
      ≡ splice i (take (length xs - i) buf) xs ++ splice 0 (drop (length xs - i) buf) ys
splice_across i buf xs ys h o =
    let n : ℕ = length xs - i in
    let head : length (take n buf) ≡ n = length-take n buf (omega arith) in
    let tail : length (drop n buf) ≡ length buf - n = length-drop n buf in
    let whole : (zs : List ℕ) → buf ++ zs ≡ take n buf ++ (drop n buf ++ zs) =
      λ zs. rw (← append_assoc (take n buf) (drop n buf) zs, take-append-drop n buf) in
    rw
      (
        take-append_le i xs ys h,
        drop-append_ge (i + length buf) (0 + length (drop n buf)) xs ys (omega arith),
        drop_all (i + length (take n buf)) xs (omega arith),
        append-nil (take n buf),
        append_assoc (take i xs) (take n buf) (drop n buf ++ drop (0 + length (drop n buf)) ys),
      )
      (ap (λ zs. take i xs ++ zs) (whole (drop (0 + length (drop n buf)) ys)))

-- write puts the buffer over the joined bytes at the offset, and keeps the blocks' sizes.
pub record Written (n npos : ℕ) (buf : List ℕ) (blocks blocks' : List (List ℕ)) : Type 0 where
  pub bytes : concat blocks' ≡ splice npos buf (concat blocks)
  pub sizes : AreBlocks n blocks'
  pub count : length blocks' ≡ length blocks

pub write_loop_lem :
    (n : ℕ) (blocks : List (List ℕ)) (npos : ℕ) (buf : List ℕ)
    → AreBlocks n blocks
    → npos < n
    → npos + length buf ≤ length blocks * n
    → 0 < length blocks
    → (blocks' : List (List ℕ)) × (write_loop blocks npos buf
        ≡ some (blocks', (npos + length buf) / n))
      × Written n npos buf blocks blocks'
write_loop_lem n [] npos buf v o f p = absurd (omega arith)
write_loop_lem n (b ∷ bs) npos buf v o f p = elim (le-cases (npos + length buf) (length b)) [
  | inl fits ↦ (
    splice npos buf b ∷ bs,
    rw (
      write_round_last b bs npos buf (omega arith) fits,
      moved_last n (length b) (npos + length buf) v.0 (omega arith) (omega arith),
    ),
    record {
      bytes = rw (splice_within npos buf b (concat bs) fits);
      sizes = (length-splice npos buf b fits ∙ v.0, v.1);
      count = refl;
    },
  )
  | inr more ↦
      let k : ℕ = length b - npos in
      let left : length (drop k buf) ≡ length buf - k = length-drop k buf in
      let part : length (take k buf) ≡ k = length-take k buf (omega arith) in
      let (bs', e, w) =
        write_loop_lem n bs 0 (drop k buf) v.1 (omega arith) (omega arith) (grind arith) in
      (
        splice npos (take k buf) b ∷ bs',
        rw (
          write_round_more b bs bs' npos ((0 + length (drop k buf)) / n) buf (omega arith) more e,
          moved_more n (npos + length buf) (0 + length (drop k buf)) (omega arith) (omega arith),
        ),
        record {
          bytes = rw (splice_across npos buf b (concat bs) (omega arith) more, w.bytes);
          sizes = (length-splice npos (take k buf) b (omega arith) ∙ v.0, w.sizes);
          count = ap suc w.count;
        },
      )
]
