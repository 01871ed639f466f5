-- ===== src/ByteArray/Seek.antt =====
-- setPosition, clear and the constructors: they give a valid byte array, and setPosition moves the
-- cursor of the byte sequence.
use cpp_linux_server.Base.{
  ℕ, suc, ◌+◌, ◌-◌, ◌*◌, ◌/◌, ◌≤◌, ◌<◌, ◌≡◌, refl, ap, sym, ◌∙◌, List, [], ◌∷◌, ◌++◌, Bool, some,
  inl, inr, length, take, drop, concat, le-cases, arith, if◌then◌else◌, ltb, take-take, take_sum,
  drop-take, le→ltb, lt→ltb, length-replicate,
}
use cpp_linux_server.ByteArray.{
  ByteArray, ret, out_of_range, set_position, seek_loop, create, wrap, clear, unwritten,
}
use cpp_linux_server.ByteArray.Blocks.{AreBlocks}
use cpp_linux_server.ByteArray.Stream.{IsValid, view, rewound}
use native.Mathlib.Nat.{add-div_left, div-eq_of_lt, div_self, zero-div}

seek_last : (b : List ℕ) (bs : List (List ℕ)) (v : ℕ) → v < length b → seek_loop (b ∷ bs) v ≡ some 0
unfolding seek_loop
seek_last b bs v h = ground arith

seek_edge : (b : List ℕ) (bs : List (List ℕ)) (v : ℕ) → v ≡ length b → seek_loop (b ∷ bs) v ≡ some 1
unfolding seek_loop
seek_edge b bs v h = ground arith

seek_more :
    (b : List ℕ) (bs : List (List ℕ)) (v i : ℕ)
    → length b < v
    → seek_loop bs (v - length b) ≡ some i
    → seek_loop (b ∷ bs) v ≡ some (suc i)
unfolding seek_loop
seek_more b bs v i h e = ground arith

-- The walk from m_root ends at the block of the position.
seek_loop_lem :
    (n : ℕ) (blocks : List (List ℕ)) (v : ℕ)
    → AreBlocks n blocks
    → 0 < n
    → 0 < length blocks
    → v ≤ length blocks * n
    → seek_loop blocks v ≡ some (v / n)
seek_loop_lem n [] v a p r h = absurd (omega arith)
seek_loop_lem n (b ∷ bs) v a p r h = elim (le-cases (length b) v) [
  | inr inside ↦ rw (seek_last b bs v inside, div-eq_of_lt {n = v} {m = n} (omega (arith, a.0)))
  | inl past ↦ elim (le-cases v (length b)) [
    | inl edge ↦
        let e : v ≡ n = omega (arith, a.0) in rw (seek_edge b bs v (omega arith), e, div_self p)
    | inr more ↦
        let m : ℕ = v - length b in
        let split : v ≡ n + m = omega (arith, a.0) in
        let rest : seek_loop bs m ≡ some (m / n) =
          seek_loop_lem n bs m a.1 p (grind (arith, a.0)) (omega (arith, a.0)) in
        let step : v / n ≡ suc (m / n) =
          ap (λ (t : ℕ). t / n) split ∙ add-div_left m p ∙ omega arith in
        rw (seek_more b bs v (m / n) more rest, step)
  ]
]

-- Any position up to the capacity is accepted: the array stays valid, with m_cur at the block of
-- the position, no byte changes, and the size grows to a position behind it.
pub set_position-IsValid :
    (v : ℕ) (ba : ByteArray)
    → IsValid ba
    → v ≤ ba.capacity
    → (ba' : ByteArray) × (set_position v ba ≡ ret tt ba')
      × IsValid ba'
      × (ba'.position ≡ v)
      × (ba'.size ≡ (if ltb ba.size v then v else ba.size))
      × (ba'.nodes ≡ ba.nodes)
unfolding set_position
set_position-IsValid v ba valid h = (
  record ba { position = v; size = if ltb ba.size v then v else ba.size; cur = v / ba.base_size },
  rw (
    le→ltb ba.capacity v h,
    seek_loop_lem ba.base_size ba.nodes v valid.blocks valid.base_pos valid.rooted
        (omega (arith, valid.capacity_eq)),
  ),
  record {
    base_pos = valid.base_pos;
    blocks = valid.blocks;
    capacity_eq = valid.capacity_eq;
    cur_eq = refl;
    position_le = ground arith;
    size_le = ground (arith, valid.size_le);
    rooted = valid.rooted;
  },
  refl,
  refl,
  refl,
)

pub set_position-out_of_range :
    (v : ℕ) (ba : ByteArray) → ba.capacity < v → set_position v ba ≡ out_of_range ba
unfolding set_position
set_position-out_of_range v ba h = rw (lt→ltb ba.capacity v h)

-- On a valid array setPosition(v), for v within the size, succeeds, keeps the array valid and puts
-- the cursor of the byte sequence at v.
pub set_position-view :
    (v : ℕ) (ba : ByteArray)
    → IsValid ba
    → v ≤ ba.size
    → (ba' : ByteArray) × (set_position v ba ≡ ret tt ba')
      × IsValid ba'
      × (view ba' ≡ rewound v (view ba))
unfolding set_position
set_position-view v ba valid h = (
  record ba { position = v; size = if ltb ba.size v then v else ba.size; cur = v / ba.base_size },
  rw (
    le→ltb ba.capacity v (omega (arith, valid.size_le)),
    seek_loop_lem ba.base_size ba.nodes v valid.blocks valid.base_pos valid.rooted
        (omega (arith, valid.capacity_eq, valid.size_le)),
  ),
  record {
    base_pos = valid.base_pos;
    blocks = valid.blocks;
    capacity_eq = valid.capacity_eq;
    cur_eq = refl;
    position_le = ground arith;
    size_le = ground (arith, valid.size_le);
    rooted = valid.rooted;
  },
  λ i. record { before = front i; after = back i; order = ba.endian },
)
  where
    f : List ℕ
    f = concat ba.nodes

    whole : take ba.position f ++ take (ba.size - ba.position) (drop ba.position f) ≡ take ba.size f
    whole =
        sym (
          take_sum ba.position (ba.size - ba.position) ba.size f (omega (arith, valid.position_le)))

    front :
        take v f ≡ take v (take ba.position f ++ take (ba.size - ba.position) (drop ba.position f))
    front = rw whole (sym (take-take v ba.size f h))

    back :
        take ((if ltb ba.size v then v else ba.size) - v) (drop v f)
        ≡ drop v (take ba.position f ++ take (ba.size - ba.position) (drop ba.position f))
    back = rw (whole, le→ltb ba.size v h) (sym (drop-take v ba.size f))

-- A new array with a positive block size is valid.
pub create-IsValid : (base : ℕ) → 0 < base → IsValid (create base)
unfolding create
create-IsValid base h = record {
  base_pos = h;
  blocks = (length-replicate base unwritten, tt);
  capacity_eq = omega arith;
  cur_eq = sym (zero-div base);
  position_le = omega arith;
  size_le = omega arith;
  rooted = omega arith;
}

pub wrap-IsValid : (bytes : List ℕ) (own : Bool) → 0 < length bytes → IsValid (wrap bytes own)
unfolding wrap
wrap-IsValid bytes own h = record {
  base_pos = h;
  blocks = (refl, tt);
  capacity_eq = omega arith;
  cur_eq = sym (zero-div (length bytes));
  position_le = omega arith;
  size_le = omega arith;
  rooted = omega arith;
}

first_block :
    (n : ℕ) (nodes : List (List ℕ))
    → AreBlocks n nodes
    → 0 < length nodes
    → AreBlocks n (take 1 nodes) × (length (take 1 nodes) ≡ 1)
first_block n [] v h = absurd (omega arith)
first_block n (b ∷ bs) v h = ((v.0, tt), refl)

pub clear-IsValid : (ba : ByteArray) → IsValid ba → IsValid (clear ba)
unfolding clear
clear-IsValid ba v =
    let (blocks, one) = first_block ba.base_size ba.nodes v.blocks v.rooted in
    record {
      base_pos = v.base_pos;
      blocks = blocks;
      capacity_eq = rw one (omega arith);
      cur_eq = sym (zero-div ba.base_size);
      position_le = omega arith;
      size_le = omega arith;
      rooted = omega (arith, one);
    }
