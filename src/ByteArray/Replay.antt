-- ===== src/ByteArray/Replay.antt =====
-- Reading from the front of what lies behind the position, and reading again what was written.
use cpp_linux_server.Base.{
  ℕ, ◌+◌, ◌≤◌, ◌<◌, ◌≡◌, ap, sym, ◌∙◌, List, ◌++◌, length, take, drop, concat, arith, length-append,
  length-take, take-append, drop-append, append_assoc, drop-drop,
}
use cpp_linux_server.ByteArray.{ByteArray, ret, write, read, set_position}
use cpp_linux_server.ByteArray.Stream.{Stream, IsValid, view, written}
use cpp_linux_server.ByteArray.Refines.{write-view, read-view, length-after, length-bytes}
use cpp_linux_server.ByteArray.Seek.{set_position-view}

-- The bytes `xs` have been read, `ys` are what is behind them.
pub record Took (xs ys : List ℕ) (ba ba' : ByteArray) : Type 0 where
  pub valid : IsValid ba'
  pub before_eq : (view ba').before ≡ (view ba).before ++ xs
  pub after_eq : (view ba').after ≡ ys
  pub endian_eq : ba'.endian ≡ ba.endian
  pub capacity_eq : ba'.capacity ≡ ba.capacity

-- Where there is something behind the cursor, the position is below the capacity.
pub room_behind :
    (ba : ByteArray) (bs : List ℕ)
    → IsValid ba
    → (view ba).after ≡ bs
    → 0 < length bs
    → ba.position < ba.capacity
room_behind ba bs v e h = omega (arith, length-after ba v, ap length e, v.size_le, v.position_le)

pub read_front :
    (xs ys : List ℕ) (n : ℕ) (ba : ByteArray)
    → IsValid ba
    → ba.position < ba.capacity
    → n ≡ length xs
    → (view ba).after ≡ xs ++ ys
    → (ba' : ByteArray) × (read n ba ≡ ret xs ba') × Took xs ys ba ba'
read_front xs ys n ba v some h e =
    let long : length (view ba).after ≡ length xs + length ys =
      ap length e ∙ length-append {0} xs ys in
    let front : take n (view ba).after ≡ xs = rw e (take-append n xs ys h) in
    let back : drop n (view ba).after ≡ ys = rw e (drop-append n xs ys h) in
    let (ba', r, v', w, c) = read-view n ba v some (omega (arith, long)) in
    (
      ba',
      r ∙ ap (λ (zs : List ℕ). ret zs ba') front,
      record {
        valid = v';
        before_eq = ap (λ (s : Stream). s.before) w ∙ ap (λ zs. (view ba).before ++ zs) front;
        after_eq = ap (λ (s : Stream). s.after) w ∙ back;
        endian_eq = ap (λ (s : Stream). s.order) w;
        capacity_eq = c;
      },
    )

pub length-before : (ba : ByteArray) → IsValid ba → length (view ba).before ≡ ba.position
length-before ba v =
    length-take ba.position (concat ba.nodes)
      (omega (arith, length-bytes ba v, v.size_le, v.position_le))

-- After anything that wrote `buf` at the position, that position can be taken again.
pub record Rewound (buf : List ℕ) (ba ba' ba'' : ByteArray) : Type 0 where
  pub seeks : set_position ba.position ba' ≡ ret tt ba''
  pub valid : IsValid ba''
  pub before_eq : (view ba'').before ≡ (view ba).before
  pub after_eq : (view ba'').after ≡ buf ++ drop (length buf) (view ba).after
  pub endian_eq : ba''.endian ≡ ba.endian

pub rewind :
    (buf : List ℕ) (ba ba' : ByteArray)
    → IsValid ba
    → IsValid ba'
    → view ba' ≡ written buf (view ba)
    → (ba'' : ByteArray) × Rewound buf ba ba' ba''
rewind buf ba ba' v v' w =
    let start : length (view ba).before ≡ ba.position = length-before ba v in
    let front : (view ba').before ≡ (view ba).before ++ buf = ap (λ (s : Stream). s.before) w in
    let end : length (view ba').before ≡ ba.position + length buf =
      ap length front
      ∙ length-append {0} (view ba).before buf
      ∙ ap (λ (t : ℕ). t + length buf) start in
    let within : ba.position ≤ ba'.size =
      omega (arith, end, length-before ba' v', v'.position_le) in
    let (ba'', e', v'', w') = set_position-view ba.position ba' v' within in
    let back : (view ba').after ≡ drop (length buf) (view ba).after =
      ap (λ (s : Stream). s.after) w in
    let joined : (view ba').before ++ (view ba').after
        ≡ (view ba).before ++ (buf ++ drop (length buf) (view ba).after) =
      rw (front, back) (append_assoc (view ba).before buf (drop (length buf) (view ba).after)) in
    (
      ba'',
      record {
        seeks = e';
        valid = v'';
        before_eq =
            ap (λ (s : Stream). s.before) w'
            ∙ ap (λ zs. take ba.position zs) joined
            ∙ take-append ba.position (view ba).before _ (sym start);
        after_eq =
            ap (λ (s : Stream). s.after) w'
            ∙ ap (λ zs. drop ba.position zs) joined
            ∙ drop-append ba.position (view ba).before _ (sym start);
        endian_eq = ap (λ (s : Stream). s.order) w' ∙ ap (λ (s : Stream). s.order) w;
      },
    )

pub replay :
    (buf : List ℕ) (ba : ByteArray)
    → IsValid ba
    → (ba' : ByteArray) × (ba'' : ByteArray) × (write buf ba ≡ ret tt ba') × Rewound buf ba ba' ba''
replay buf ba v =
    let (ba', e, v', w) = write-view buf ba v in
    let (ba'', r) = rewind buf ba ba' v v' w in (ba', ba'', e, r)

-- Two writes are one write of both.
pub written-written :
    (xs ys : List ℕ) (s : Stream) → written ys (written xs s) ≡ written (xs ++ ys) s
written-written xs ys s = λ i. record {
  before = (append_assoc s.before xs ys) i;
  after = (drop-drop (length ys) (length xs) (length (xs ++ ys)) s.after (length-append xs ys)) i;
  order = s.order;
}
