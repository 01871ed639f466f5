-- ===== src/ByteArray/Placing.antt =====
-- Where the position lies in the chain, and write behind addCapacity.
use cpp_linux_server.Base.{
  ℕ, zero, suc, ◌+◌, ◌-◌, ◌*◌, ◌/◌, ◌%◌, ◌≤◌, ◌<◌, ◌≡◌, refl, ap, sym, ◌∙◌, List, [], ◌∷◌, ◌++◌,
  length, take-append_ge, drop-append_ge, false, take, drop, concat, length-append, length-take,
  length-drop, concat-append, append_assoc, arith, if◌then◌else◌, ◌==◌, ltb, take-append-drop,
  All-append, length-concat,
}
use cpp_linux_server.ByteArray.{ByteArray, ret, write_at, splice}
use cpp_linux_server.ByteArray.Blocks.{AreBlocks, write_loop_lem}
use cpp_linux_server.ByteArray.Stream.{IsValid}
use native.Mathlib.Nat.{div-add-mod, mod-lt, add-mul-div_left}

-- The chain cut at m_cur.
take_blocks : (n i : ℕ) (nodes : List (List ℕ)) → AreBlocks n nodes → AreBlocks n (take i nodes)
take_blocks n zero nodes v = tt
take_blocks n (suc i) [] v = tt
take_blocks n (suc i) (b ∷ bs) v = (v.0, take_blocks n i bs v.1)

drop_blocks : (n i : ℕ) (nodes : List (List ℕ)) → AreBlocks n nodes → AreBlocks n (drop i nodes)
drop_blocks n zero nodes v = v
drop_blocks n (suc i) [] v = tt
drop_blocks n (suc i) (b ∷ bs) v = drop_blocks n i bs v.1

pub concat-cut :
    (i : ℕ) (nodes : List (List ℕ)) → concat nodes ≡ concat (take i nodes) ++ concat (drop i nodes)
concat-cut i nodes =
    ap concat (sym (take-append-drop i nodes)) ∙ concat-append (take i nodes) (drop i nodes)

splice_past :
    (n i : ℕ) (buf xs ys : List ℕ)
    → n ≡ length xs + i
    → splice n buf (xs ++ ys) ≡ xs ++ splice i buf ys
splice_past n i buf xs ys h = rw (
  take-append_ge n i xs ys h,
  drop-append_ge (n + length buf) (i + length buf) xs ys (omega arith),
  append_assoc xs (take i ys) (buf ++ drop (i + length buf) ys),
)

block_below : (c n b off : ℕ) → c * b + off < n * b → c < n
block_below c n b off h = grind arith

-- A position inside the capacity: m_cur is a block of the chain, and the chain from it holds what
-- lies behind its first byte.
pub record At (ba : ByteArray) : Type 0 where
  pub inside : ba.cur < length ba.nodes
  pub offset : ba.position % ba.base_size < ba.base_size
  pub split : ba.position ≡ ba.cur * ba.base_size + ba.position % ba.base_size
  pub rest : AreBlocks ba.base_size (drop ba.cur ba.nodes)
  pub front : length (concat (take ba.cur ba.nodes)) ≡ ba.cur * ba.base_size
  pub count : length (drop ba.cur ba.nodes) * ba.base_size + ba.cur * ba.base_size ≡ ba.capacity

pub IsValid-At : (ba : ByteArray) → IsValid ba → ba.position < ba.capacity → At ba
IsValid-At ba v h =
    let b : ℕ = ba.base_size in
    let cut : ba.position ≡ ba.cur * b + ba.position % b =
      rw v.cur_eq (omega (arith, div-add-mod ba.position b)) in
    let below : ba.cur < length ba.nodes =
      block_below ba.cur (length ba.nodes) b (ba.position % b)
        (omega (arith, cut, h, v.capacity_eq)) in
    let left : length (drop ba.cur ba.nodes) ≡ length ba.nodes - ba.cur =
      length-drop ba.cur ba.nodes in
    let all : length (drop ba.cur ba.nodes) + ba.cur ≡ length ba.nodes = omega arith in
    record {
      inside = below;
      offset = mod-lt ba.position v.base_pos;
      split = cut;
      rest = drop_blocks b ba.cur ba.nodes v.blocks;
      front =
          length-concat b (take ba.cur ba.nodes) (take_blocks b ba.cur ba.nodes v.blocks)
          ∙ ap (λ (t : ℕ). t * b) (length-take ba.cur ba.nodes (omega arith));
      count = omega (arith, v.capacity_eq, ap (λ (t : ℕ). t * b) all);
    }

pub cur_moves :
    (ba : ByteArray) (k : ℕ)
    → IsValid ba
    → ba.cur + (ba.position % ba.base_size + k) / ba.base_size ≡ (ba.position + k) / ba.base_size
cur_moves ba k v =
    let b : ℕ = ba.base_size in
    let cut : ba.position + k ≡ ba.position % b + k + b * ba.cur =
      rw v.cur_eq (omega (arith, div-add-mod ba.position b)) in
    rw (cut, add-mul-div_left (ba.position % b + k) ba.cur v.base_pos) (omega arith)

-- What write leaves, once there is room.
pub record Wrote (buf : List ℕ) (ba ba' : ByteArray) : Type 0 where
  pub valid : IsValid ba'
  pub bytes : concat ba'.nodes ≡ splice ba.position buf (concat ba.nodes)
  pub position_eq : ba'.position ≡ ba.position + length buf
  pub size_eq :
      ba'.size
      ≡ (if ltb ba.size (ba.position + length buf) then ba.position + length buf else ba.size)
  pub endian_eq : ba'.endian ≡ ba.endian

pub write_at_lem :
    (ba : ByteArray) (buf : List ℕ)
    → IsValid ba
    → 0 < length buf
    → ba.position + length buf ≤ ba.capacity
    → (ba' : ByteArray) × (write_at buf ba ≡ ret tt ba') × Wrote buf ba ba'
unfolding write_at
write_at_lem ba buf v h room =
    let b : ℕ = ba.base_size in
    let off : ℕ = ba.position % b in
    let here : At ba = IsValid-At ba v (omega arith) in
    let (bs', e, w) =
      write_loop_lem b (drop ba.cur ba.nodes) off buf here.rest here.offset
        (omega (arith, here.count, here.split))
        (omega (arith, length-drop ba.cur ba.nodes, here.inside)) in
    let total : length (take ba.cur ba.nodes ++ bs') ≡ length ba.nodes = omega (
      arith,
      length-append {0} (take ba.cur ba.nodes) bs',
      length-take {0} ba.cur ba.nodes (omega (arith, here.inside)),
      length-drop {0} ba.cur ba.nodes,
      w.count,
      here.inside,
    ) in
    (
      record ba {
        nodes = take ba.cur ba.nodes ++ bs';
        cur = ba.cur + (off + length buf) / b;
        position = ba.position + length buf;
        size = if ltb ba.size (ba.position + length buf) then ba.position + length buf else ba.size;
      },
      (let pos : (b == 0) ≡ false = ground (arith, v.base_pos) in rw (pos, e)),
      record {
        valid = record {
          base_pos = v.base_pos;
          blocks =
              All-append (λ x. length x ≡ b) (take ba.cur ba.nodes) bs'
                (take_blocks b ba.cur ba.nodes v.blocks) w.sizes;
          capacity_eq = v.capacity_eq ∙ ap (λ (t : ℕ). t * b) (sym total);
          cur_eq = cur_moves ba (length buf) v;
          position_le = ground arith;
          size_le = ground (arith, v.size_le);
          rooted = omega (arith, total, v.rooted);
        };
        bytes =
            rw (concat-append (take ba.cur ba.nodes) bs', w.bytes, concat-cut ba.cur ba.nodes)
              (sym (
                splice_past ba.position off buf (concat (take ba.cur ba.nodes))
                  (concat (drop ba.cur ba.nodes)) (omega (arith, here.split, here.front))));
        position_eq = refl;
        size_eq = refl;
        endian_eq = refl;
      },
    )
