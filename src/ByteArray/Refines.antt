-- ===== src/ByteArray/Refines.antt =====
-- ByteArray's write and read do to the blocks what the byte sequence with a cursor
-- promises.
use cpp_linux_server.Base.{
  ℕ, suc, ◌+◌, ◌-◌, ◌/◌, ◌%◌, ◌≤◌, ◌<◌, ◌≡◌, refl, ap, sym, ◌∙◌, List, [], ◌∷◌, ◌++◌, inl, inr,
  length, drop-append_ge, false, take, drop, concat, length-append, length-take, length-drop,
  append_assoc, append-nil, le-cases, arith, ◌==◌, leb, ltb, drop_all, take-take, take_sum, true,
  le→leb, le→ltb, lt→ltb, drop-drop, some, drop-take, slice_within, take-append_le, take-append,
  drop-append, length-concat,
}
use cpp_linux_server.ByteArray.{
  ByteArray, ret, out_of_range, fault, write, write_at, add_capacity, read, read_loop,
  get_read_size, splice,
}
use cpp_linux_server.ByteArray.Blocks.{read_loop_lem}
use cpp_linux_server.ByteArray.Stream.{IsValid, view, written, advanced}
use cpp_linux_server.ByteArray.Capacity.{Grown, add_capacity_lem}
use native.Mathlib.Nat.{mul-div_cancel}
use cpp_linux_server.ByteArray.Placing.{At, IsValid-At, Wrote, write_at_lem, concat-cut, cur_moves}

splice_before :
    (p : ℕ) (buf f fresh : List ℕ)
    → p ≤ length f
    → take (p + length buf) (splice p buf (f ++ fresh)) ≡ take p f ++ buf
splice_before p buf f fresh h =
    let whole : List ℕ = f ++ fresh in
    let front : take p whole ≡ take p f = take-append_le p f fresh h in
    rw (front, ← append_assoc (take p f) buf (drop (p + length buf) whole))
      (take-append (p + length buf) (take p f ++ buf) (drop (p + length buf) whole)
        (omega (arith, length-append {0} (take p f) buf, length-take {0} p f h)))

splice_after :
    (p s s' : ℕ) (buf f fresh : List ℕ)
    → p ≤ s
    → s ≤ length f
    → s' - (p + length buf) ≡ s - (p + length buf)
    → take (s' - (p + length buf)) (drop (p + length buf) (splice p buf (f ++ fresh)))
      ≡ drop (length buf) (take (s - p) (drop p f))
splice_after p s s' buf f fresh h le e =
    let e' : ℕ = p + length buf in
    let whole : List ℕ = f ++ fresh in
    let front : take p whole ≡ take p f = take-append_le p f fresh (omega arith) in
    let cut : drop e' (splice p buf whole) ≡ drop e' whole =
      rw (front, ← append_assoc (take p f) buf (drop e' whole))
        (drop-append e' (take p f ++ buf) (drop e' whole)
          (omega (arith, length-append {0} (take p f) buf, length-take {0} p f (omega arith)))) in
    let rest : s - p - length buf ≡ s - e' = omega arith in
    rw (cut, e, drop-take (length buf) (s - p) (drop p f), drop-drop (length buf) p e' f refl, rest)
      (elim (le-cases e' s) [
        | inl within ↦ slice_within e' (s - e') f fresh (omega arith)
        | inr beyond ↦ let none : s - e' ≡ 0 = omega arith in rw none
      ])

pub length-bytes : (ba : ByteArray) → IsValid ba → length (concat ba.nodes) ≡ ba.capacity
length-bytes ba v = length-concat ba.base_size ba.nodes v.blocks ∙ sym v.capacity_eq

write_view_after :
    (buf : List ℕ) (ba room ba' : ByteArray)
    → IsValid ba
    → Grown (length buf) ba room
    → Wrote buf room ba'
    → view ba' ≡ written buf (view ba)
write_view_after buf ba room ba' v g w =
    λ i. record { before = front i; after = back i; order = (w.endian_eq ∙ g.endian_eq) i }
  where
    f : List ℕ
    f = concat ba.nodes

    out : concat ba'.nodes ≡ splice ba.position buf (f ++ g.fresh)
    out = cc (w.bytes, g.bytes, g.position_eq)

    end : ba'.position ≡ ba.position + length buf
    end = omega (arith, w.position_eq, g.position_eq)

    left : ba'.size - (ba.position + length buf) ≡ ba.size - (ba.position + length buf)
    left = ground (arith, w.size_eq, g.size_eq, g.position_eq)

    all : ba.size ≤ length f
    all = omega (arith, length-bytes ba v, v.size_le)

    front : take ba'.position (concat ba'.nodes) ≡ take ba.position f ++ buf
    front =
        rw (out, end) (splice_before ba.position buf f g.fresh (omega (arith, v.position_le, all)))

    back :
        take (ba'.size - ba'.position) (drop ba'.position (concat ba'.nodes))
        ≡ drop (length buf) (take (ba.size - ba.position) (drop ba.position f))
    back =
        rw (out, end)
          (splice_after ba.position ba.size ba'.size buf f g.fresh v.position_le all left)

write_some :
    (x : ℕ) (xs : List ℕ) (ba : ByteArray)
    → write (x ∷ xs) ba ≡ write_at (x ∷ xs) (add_capacity (length (x ∷ xs)) ba)
unfolding write
write_some x xs ba = let some : (suc (length xs) == 0) ≡ false = ground arith in rw some

-- On a valid array write succeeds, whatever the blocks and the capacity, keeps the array valid, and
-- overwrites or extends the byte sequence at the cursor by exactly the buffer.
pub write-view :
    (buf : List ℕ) (ba : ByteArray)
    → IsValid ba
    → (ba' : ByteArray) × (write buf ba ≡ ret tt ba')
      × IsValid ba'
      × (view ba' ≡ written buf (view ba))
unfolding write
write-view [] ba v = (
  ba,
  refl,
  v,
  λ i. record {
    before = (sym (append-nil (take ba.position (concat ba.nodes)))) i;
    after = (view ba).after;
    order = ba.endian;
  },
)
write-view (x ∷ xs) ba v =
    let buf : List ℕ = x ∷ xs in
    let g = add_capacity_lem (length buf) ba v in
    let (ba', e, w) =
      write_at_lem (add_capacity (length buf) ba) buf g.valid (omega arith)
        (omega (arith, g.room, g.position_eq)) in
    (
      ba',
      write_some x xs ba ∙ e,
      w.valid,
      write_view_after buf ba (add_capacity (length buf) ba) ba' v g w,
    )

pub length-after : (ba : ByteArray) → IsValid ba → length (view ba).after ≡ ba.size - ba.position
length-after ba v = length-take (ba.size - ba.position) (drop ba.position (concat ba.nodes)) (
    omega (
      arith,
      length-drop {0} ba.position (concat ba.nodes),
      length-bytes ba v,
      v.size_le,
      v.position_le,
    ))

-- What read leaves: the cursor further on, and nothing else changed.
abbrev moved_on : ℕ → ByteArray → ByteArray
moved_on n ba = record ba {
  cur = ba.cur + (ba.position % ba.base_size + n) / ba.base_size;
  position = ba.position + n;
}

moved_on-view :
    (n : ℕ) (ba : ByteArray)
    → n ≤ ba.size - ba.position
    → view (moved_on n ba) ≡ advanced n (view ba)
moved_on-view n ba h = λ i. record { before = front i; after = back i; order = ba.endian }
  where
    f : List ℕ
    f = concat ba.nodes

    p : ℕ
    p = ba.position

    front : take (p + n) f ≡ take p f ++ take n (take (ba.size - p) (drop p f))
    front = rw (take-take n (ba.size - p) (drop p f) h) (take_sum p n (p + n) f refl)

    back : take (ba.size - (p + n)) (drop (p + n) f) ≡ drop n (take (ba.size - p) (drop p f))
    back =
        let left : ba.size - p - n ≡ ba.size - (p + n) = omega arith in
        rw (drop-take n (ba.size - p) (drop p f), drop-drop n p (p + n) f refl, left)

-- On a valid array whose position is below the capacity, a read of at most what is left succeeds,
-- keeps the array valid, returns the bytes behind the cursor and moves the cursor behind
-- them, in the same capacity.
pub read-view :
    (n : ℕ) (ba : ByteArray)
    → IsValid ba
    → ba.position < ba.capacity
    → n ≤ length (view ba).after
    → (ba' : ByteArray) × (read n ba ≡ ret (take n (view ba).after) ba')
      × IsValid ba'
      × (view ba' ≡ advanced n (view ba))
      × (ba'.capacity ≡ ba.capacity)
unfolding read get_read_size
read-view n ba v room h = (
  moved_on n ba,
  rw (ordered, enough, based, loop, bytes),
  record {
    base_pos = v.base_pos;
    blocks = v.blocks;
    capacity_eq = v.capacity_eq;
    cur_eq = cur_moves ba n v;
    position_le = omega (arith, left, v.position_le);
    size_le = v.size_le;
    rooted = v.rooted;
  },
  moved_on-view n ba left,
  refl,
)
  where
    here : At ba
    here = IsValid-At ba v room

    left : n ≤ ba.size - ba.position
    left = omega (arith, length-after ba v)

    ordered : leb ba.position ba.size ≡ true
    ordered = le→leb ba.position ba.size v.position_le

    enough : ltb (ba.size - ba.position) n ≡ false
    enough = le→ltb (ba.size - ba.position) n left

    based : (ba.base_size == 0) ≡ false
    based = ground (arith, v.base_pos)

    off : ℕ
    off = ba.position % ba.base_size

    loop :
        read_loop (drop ba.cur ba.nodes) off n
        ≡ some (take n (drop off (concat (drop ba.cur ba.nodes))), (off + n) / ba.base_size)
    loop =
        read_loop_lem ba.base_size (drop ba.cur ba.nodes) off n here.rest here.offset
          (omega (arith, left, here.count, here.split, v.size_le, v.position_le))
          (omega (arith, length-drop {0} ba.cur ba.nodes, here.inside))

    bytes : take n (drop off (concat (drop ba.cur ba.nodes))) ≡ take n (view ba).after
    bytes = rw (
      take-take n (ba.size - ba.position) (drop ba.position (concat ba.nodes)) left,
      concat-cut ba.cur ba.nodes,
      drop-append_ge ba.position off (concat (take ba.cur ba.nodes)) (concat (drop ba.cur ba.nodes))
          (omega (arith, here.split, here.front)),
    )

-- On a valid array a read of more than is left throws, and leaves the array as it was.
pub read-short :
    (n : ℕ) (ba : ByteArray) → IsValid ba → length (view ba).after < n → read n ba ≡ out_of_range ba
unfolding read get_read_size
read-short n ba v h =
    let ordered : leb ba.position ba.size ≡ true = le→leb ba.position ba.size v.position_le in
    let short : ltb (ba.size - ba.position) n ≡ true =
      lt→ltb (ba.size - ba.position) n (omega (arith, length-after ba v)) in
    rw (ordered, short)

-- On a valid array whose position is the capacity, m_cur is null, and a read of nothing dereferences
-- it.
pub read_at_end_faults :
    (ba : ByteArray) → IsValid ba → ba.position ≡ ba.capacity → read 0 ba ≡ fault
unfolding read get_read_size read_loop
read_at_end_faults ba v e =
    let ordered : leb ba.position ba.size ≡ true = le→leb ba.position ba.size v.position_le in
    let enough : ltb (ba.size - ba.position) 0 ≡ false =
      le→ltb (ba.size - ba.position) 0 (omega arith) in
    let based : (ba.base_size == 0) ≡ false = ground (arith, v.base_pos) in
    let last : ba.cur ≡ length ba.nodes =
      v.cur_eq
      ∙ ap (λ (t : ℕ). t / ba.base_size) (e ∙ v.capacity_eq)
      ∙ mul-div_cancel (length ba.nodes) v.base_pos in
    let gone : drop ba.cur ba.nodes ≡ [] = drop_all ba.cur ba.nodes (omega arith) in
    rw (ordered, enough, based, gone)
