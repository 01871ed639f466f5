-- ===== src/ByteArray/Capacity.antt =====
-- addCapacity makes room behind the bytes that are there.
use cpp_linux_server.Base.{
  ℕ, zero, suc, ◌+◌, ◌-◌, ◌*◌, ◌/◌, ◌≤◌, ◌<◌, ◌≡◌, refl, sym, ap, ◌∙◌, List, [], ◌∷◌, ◌++◌, inl,
  inr, length, concat, length-append, length-replicate, concat-append, All-append, append_assoc,
  append-nil, le-cases, arith, if◌then◌else◌, ◌==◌,
}
use cpp_linux_server.ByteArray.{
  ByteArray, add_capacity, append_nodes, grow, get_capacity, ceil_div, new_node, unwritten,
}
use cpp_linux_server.ByteArray.Blocks.{AreBlocks}
use cpp_linux_server.ByteArray.Stream.{IsValid}
use native.Mathlib.Nat.{div-add-mod, mod-lt, mul-div_cancel}

pub record Grown (n : ℕ) (ba ba' : ByteArray) : Type 0 where
  pub valid : IsValid ba'
  pub fresh : List ℕ
  pub bytes : concat ba'.nodes ≡ concat ba.nodes ++ fresh
  pub position_eq : ba'.position ≡ ba.position
  pub size_eq : ba'.size ≡ ba.size
  pub base_eq : ba'.base_size ≡ ba.base_size
  pub endian_eq : ba'.endian ≡ ba.endian
  pub room : ba.position + n ≤ ba'.capacity

ceil_div-ge : (x n : ℕ) → 0 < n → x ≤ ceil_div x n * n
ceil_div-ge x n h = omega (arith, div-add-mod (x + n - 1) n, mod-lt (x + n - 1) h)

append_nodes_blocks :
    (count n : ℕ) (nodes : List (List ℕ))
    → AreBlocks n nodes
    → AreBlocks n (append_nodes count n nodes)
unfolding append_nodes
append_nodes_blocks zero n nodes h = h
append_nodes_blocks (suc count) n nodes h =
    append_nodes_blocks count n (nodes ++ (new_node n ∷ []))
      (All-append (λ b. length b ≡ n) nodes (new_node n ∷ []) h (length-replicate n unwritten, tt))

length-append_nodes :
    (count n : ℕ) (nodes : List (List ℕ))
    → length (append_nodes count n nodes) ≡ length nodes + count
unfolding append_nodes
length-append_nodes zero n nodes = omega arith
length-append_nodes (suc count) n nodes = omega (
  arith,
  length-append_nodes count n (nodes ++ (new_node n ∷ [])),
  length-append {0} nodes (new_node n ∷ []),
)

append_nodes_bytes :
    (count n : ℕ) (nodes : List (List ℕ))
    → (fresh : List ℕ) × (concat (append_nodes count n nodes) ≡ concat nodes ++ fresh)
unfolding append_nodes
append_nodes_bytes zero n nodes = ([], rw (append-nil (concat nodes)))
append_nodes_bytes (suc count) n nodes =
    let (fresh, e) = append_nodes_bytes count n (nodes ++ (new_node n ∷ [])) in
    (
      (new_node n ++ []) ++ fresh,
      rw (
        e,
        concat-append nodes (new_node n ∷ []),
        append_assoc (concat nodes) (new_node n ++ []) fresh,
      ),
    )

-- A full chain sends m_cur to its first new block; that is where the position is.
grow_cur :
    (ba : ByteArray)
    → IsValid ba
    → (if (ba.capacity - ba.position) == 0 then length ba.nodes else ba.cur)
      ≡ ba.position / ba.base_size
grow_cur ba v = elim (le-cases ba.capacity ba.position) [
  | inl full ↦
      let e : ba.capacity - ba.position ≡ 0 = omega arith in
      let p : ba.position ≡ length ba.nodes * ba.base_size =
        omega (arith, v.capacity_eq, v.size_le, v.position_le) in
      rw e (sym (ap (λ (t : ℕ). t / ba.base_size) p ∙ mul-div_cancel (length ba.nodes) v.base_pos))
  | inr room ↦ ground (arith, v.cur_eq)
]

grow_lem :
    (n : ℕ) (ba : ByteArray)
    → IsValid ba
    → ba.capacity < ba.position + n
    → Grown n ba (
        grow
          (ceil_div (n - (ba.capacity - ba.position)) ba.base_size)
          (ba.capacity - ba.position)
          ba)
unfolding grow
grow_lem n ba v h =
    let count : ℕ = ceil_div (n - (ba.capacity - ba.position)) ba.base_size in
    let enough : n - (ba.capacity - ba.position) ≤ count * ba.base_size =
      ceil_div-ge (n - (ba.capacity - ba.position)) ba.base_size v.base_pos in
    let more : length (append_nodes count ba.base_size ba.nodes) ≡ length ba.nodes + count =
      length-append_nodes count ba.base_size ba.nodes in
    let (fresh, e) = append_nodes_bytes count ba.base_size ba.nodes in
    record {
      valid = record {
        base_pos = v.base_pos;
        blocks = append_nodes_blocks count ba.base_size ba.nodes v.blocks;
        capacity_eq = rw more (omega (arith, v.capacity_eq));
        cur_eq = grow_cur ba v;
        position_le = v.position_le;
        size_le = omega (arith, v.size_le);
        rooted = omega (arith, more, v.rooted);
      };
      fresh = fresh;
      bytes = e;
      position_eq = refl;
      size_eq = refl;
      base_eq = refl;
      endian_eq = refl;
      room = omega arith;
    }

unchanged : (n : ℕ) (ba : ByteArray) → IsValid ba → ba.position + n ≤ ba.capacity → Grown n ba ba
unchanged n ba v h = record {
  valid = v;
  fresh = [];
  bytes = rw (append-nil (concat ba.nodes));
  position_eq = refl;
  size_eq = refl;
  base_eq = refl;
  endian_eq = refl;
  room = h;
}

-- On a valid array addCapacity(n) keeps the bytes, the cursor, the size and the validity, and leaves
-- room for n bytes behind the position.
pub add_capacity_lem : (n : ℕ) (ba : ByteArray) → IsValid ba → Grown n ba (add_capacity n ba)
unfolding add_capacity get_capacity
add_capacity_lem n ba v = elim (le-cases (ba.position + n) ba.capacity) [
  | inl fits ↦
      let same : add_capacity n ba ≡ ba = ground (arith, v.size_le, v.position_le) in
      rw same (unchanged n ba v fits)
  | inr short ↦
      let grown : add_capacity n ba
          ≡ grow (ceil_div (n - (ba.capacity - ba.position)) ba.base_size)
              (ba.capacity - ba.position) ba =
        ground (arith, v.size_le, v.position_le) in
      rw grown (grow_lem n ba v short)
]
