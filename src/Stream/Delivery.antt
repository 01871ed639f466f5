-- ===== src/Stream/Delivery.antt =====
-- readFixSize and writeFixSize deliver the bytes in order, however the peer cuts them up.
use cpp_linux_server.Base.{
  ℕ, zero, suc, ◌+◌, ◌-◌, ◌%◌, ◌^◌, ◌≤◌, ◌<◌, ◌≡◌, refl, ap, sym, ◌∙◌, List, [], ◌∷◌, ◌++◌, length,
  take, drop, concat, Bool, true, false, Option, none, some, min, All, arith, length-append,
  append_assoc, append-nil, take-append-drop, take-take, length-take, length-drop, lt→ltb, lt→leb,
  lt→==,
}
use cpp_linux_server.Stream.{
  Link, unread, arrive, receive, accept, transmit, prefixed, read_rounds, positive_int,
  read_fix_size, write_rounds, write_fix_size,
}

-- No arrival is an error.
abbrev pub IsOpen : Link → Type 0
IsOpen l = All (λ (s : List ℕ). 0 < length s) l.incoming

-- What a read of `n` bytes makes of a link: their order is kept, the rest stays.
pub record Received (n : ℕ) (l : Link) (r : Option (List ℕ) × Link) : Type 0 where
  pub bytes : List ℕ
  pub result_eq : r.0 ≡ some bytes
  pub size_eq : length bytes ≡ n
  pub order_eq : concat l.incoming ≡ bytes ++ concat r.1.incoming
  pub is_open : IsOpen r.1
  pub outgoing_eq : r.1.outgoing ≡ l.outgoing
  pub quota_eq : r.1.quota ≡ l.quota
  pub closed_eq : r.1.closed ≡ l.closed

pub concat-unread : (s : List ℕ) (ss : List (List ℕ)) → concat (unread s ss) ≡ s ++ concat ss
concat-unread [] ss = refl
concat-unread (b ∷ bs) ss = refl

unread-open :
    (s : List ℕ) (ss : List (List ℕ))
    → All (λ (x : List ℕ). 0 < length x) ss
    → All (λ (x : List ℕ). 0 < length x) (unread s ss)
unread-open [] ss h = h
unread-open (b ∷ bs) ss h = (omega arith, h)

-- One read of segments that have bytes: some of them, in order.
pub record Piece (len : ℕ) (ss : List (List ℕ)) (r : List ℕ × List (List ℕ)) : Type 0 where
  pub some_bytes : 0 < length r.0
  pub bounded : length r.0 ≤ len
  pub order_eq : concat ss ≡ r.0 ++ concat r.1
  pub is_open : All (λ (x : List ℕ). 0 < length x) r.1

arrive-Piece :
    (len : ℕ) (ss : List (List ℕ))
    → 0 < len
    → All (λ (x : List ℕ). 0 < length x) ss
    → 0 < length (concat ss)
    → Piece len ss (arrive len ss)
arrive-Piece len [] pos o room = absurd (omega arith)
arrive-Piece (suc len) ([] ∷ ss) pos o room = absurd (omega (arith, o.0))
arrive-Piece zero (s ∷ ss) pos o room = absurd (omega arith)
arrive-Piece (suc len) ((b ∷ bs) ∷ ss) pos o room = record {
  some_bytes = omega arith;
  bounded = omega (arith, take-le len bs);
  order_eq = ap (λ (ys : List ℕ). b ∷ ys) (in_order);
  is_open = unread-open (drop len bs) ss o.1;
}
  where
    take-le : (n : ℕ) (xs : List ℕ) → length (take n xs) ≤ n
    take-le zero xs = omega arith
    take-le (suc n) [] = omega arith
    take-le (suc n) (x ∷ xs) = omega (arith, take-le n xs)

    in_order : bs ++ concat ss ≡ take len bs ++ concat (unread (drop len bs) ss)
    in_order =
        ap (λ (ys : List ℕ). ys ++ concat ss) (sym (take-append-drop len bs))
        ∙ append_assoc (take len bs) (drop len bs) (concat ss)
        ∙ ap (λ (ys : List ℕ). take len bs ++ ys) (sym (concat-unread (drop len bs) ss))

-- What was read before the rest of a read.
prefixed-Received :
    (n k : ℕ) (got : List ℕ) (l : Link) (ss : List (List ℕ)) (r : Option (List ℕ) × Link)
    → n ≡ length got + k
    → concat l.incoming ≡ got ++ concat ss
    → Received k (record l { incoming = ss }) r
    → Received n l (prefixed got r)
prefixed-Received n k got l ss (none, l') e o v = absurd (cc v.result_eq)
prefixed-Received n k got l ss (some more, l') e o v =
    let same : more ≡ v.bytes = cc v.result_eq in
    record {
      bytes = got ++ more;
      result_eq = refl;
      size_eq = omega (arith, length-append {0} got more, ap length same, v.size_eq);
      order_eq =
          o
          ∙ ap (λ (ys : List ℕ). got ++ ys)
              (v.order_eq ∙ ap (λ (ys : List ℕ). ys ++ concat l'.incoming) (sym same))
          ∙ sym (append_assoc got more (concat l'.incoming));
      is_open = v.is_open;
      outgoing_eq = v.outgoing_eq;
      quota_eq = v.quota_eq;
      closed_eq = v.closed_eq;
    }

read_rounds-Received :
    (max_len rounds left : ℕ) (l : Link)
    → 0 < max_len
    → left ≤ rounds
    → IsOpen l
    → left ≤ length (concat l.incoming)
    → Received left l (read_rounds max_len rounds left l)
unfolding read_rounds receive
read_rounds-Received max_len zero left l pos enough o room =
    let none_left : left ≡ 0 = omega arith in
    rw none_left (record {
      bytes = [];
      result_eq = refl;
      size_eq = refl;
      order_eq = refl;
      is_open = o;
      outgoing_eq = refl;
      quota_eq = refl;
      closed_eq = refl;
    })
read_rounds-Received max_len (suc rounds) zero l pos enough o room = record {
  bytes = [];
  result_eq = refl;
  size_eq = refl;
  order_eq = refl;
  is_open = o;
  outgoing_eq = refl;
  quota_eq = refl;
  closed_eq = refl;
}
read_rounds-Received max_len (suc rounds) (suc left) l pos enough o room =
    let len : ℕ = min (suc left) max_len in
    let got : List ℕ = (arrive len l.incoming).0 in
    let ss : List (List ℕ) = (arrive len l.incoming).1 in
    let p : Piece len l.incoming (got, ss) =
      arrive-Piece len l.incoming (omega arith) o (omega arith) in
    let total : length (concat l.incoming) ≡ length got + length (concat ss) =
      ap length p.order_eq ∙ length-append {0} got (concat ss) in
    rw (lt→== 0 (suc left) (omega arith), lt→== 0 (length got) p.some_bytes)
      (prefixed-Received (suc left) (suc left - length got) got l ss
        (read_rounds max_len rounds (suc left - length got) (record l { incoming = ss }))
        (omega (arith, p.bounded)) p.order_eq
        (read_rounds-Received max_len rounds (suc left - length got) (record l { incoming = ss })
          pos (omega (arith, p.some_bytes)) p.is_open (omega (arith, total))))

positive_int_lem : (n : ℕ) → 0 < n → n < 2 ^ 31 → positive_int n ≡ true
positive_int_lem n p q =
    let small : n % 2 ^ 32 ≡ n = omega arith in rw (small, lt→ltb 0 n p, lt→ltb n (2 ^ 31) q) refl

-- readFixSize of 1 to 2^31 - 1 bytes of an open link on which as many have arrived, in whatever
-- pieces: it ends with those bytes, in order, and leaves those behind them.
pub read_fix_size-Received :
    (max_len size : ℕ) (l : Link)
    → 0 < max_len
    → 0 < size
    → size < 2 ^ 31
    → IsOpen l
    → size ≤ length (concat l.incoming)
    → Received size l (read_fix_size max_len size l)
unfolding read_fix_size
read_fix_size-Received max_len size l pos some_size small o room =
    rw (lt→leb (2 ^ 63) size (omega arith), positive_int_lem size some_size small)
      (read_rounds-Received max_len size size l pos (omega arith) o room)

-- Every write takes a byte at least, and as many writes are possible as there are bytes.
abbrev pub IsWilling : ℕ → Link → Type 0
IsWilling n l = All (λ (q : ℕ). 0 < q) l.quota × (n ≤ length l.quota)

-- What a write of `bytes` makes of a link; each write costs one of the quota.
pub record Sent (bytes : List ℕ) (l : Link) (r : Bool × Link) : Type 0 where
  pub result_eq : r.0 ≡ true
  pub outgoing_eq : r.1.outgoing ≡ l.outgoing ++ bytes
  pub willing : All (λ (q : ℕ). 0 < q) r.1.quota
  pub cost : length l.quota ≤ length r.1.quota + length bytes
  pub incoming_eq : r.1.incoming ≡ l.incoming
  pub closed_eq : r.1.closed ≡ l.closed

Sent-nothing : (l : Link) → All (λ (q : ℕ). 0 < q) l.quota → Sent [] l (true, l)
Sent-nothing l w = record {
  result_eq = refl;
  outgoing_eq = sym (append-nil l.outgoing);
  willing = w;
  cost = omega arith;
  incoming_eq = refl;
  closed_eq = refl;
}

-- One write: some of the bytes.
pub record Taken (bytes : List ℕ) (qs : List ℕ) (r : ℕ × List ℕ) : Type 0 where
  pub some_taken : 0 < r.0
  pub bounded : r.0 ≤ length bytes
  pub willing : All (λ (q : ℕ). 0 < q) r.1
  pub cost : length qs ≡ suc (length r.1)

accept-Taken :
    (bytes qs : List ℕ)
    → 0 < length bytes
    → All (λ (q : ℕ). 0 < q) qs
    → 0 < length qs
    → Taken bytes qs (accept bytes qs)
accept-Taken bytes [] h w room = absurd (omega arith)
accept-Taken bytes (q ∷ qs) h w room = record {
  some_taken = omega (arith, w.0);
  bounded = omega arith;
  willing = w.1;
  cost = refl;
}

write_rounds-Sent :
    (max_len rounds : ℕ) (bytes : List ℕ) (l : Link)
    → 0 < max_len
    → length bytes ≤ rounds
    → IsWilling (length bytes) l
    → Sent bytes l (write_rounds max_len rounds bytes l)
unfolding write_rounds transmit
write_rounds-Sent max_len zero [] l pos enough w = Sent-nothing l w.0
write_rounds-Sent max_len zero (b ∷ bs) l pos enough w = absurd (omega arith)
write_rounds-Sent max_len (suc rounds) [] l pos enough w = Sent-nothing l w.0
write_rounds-Sent max_len (suc rounds) (b ∷ bs) l pos enough w =
    let all : List ℕ = b ∷ bs in
    let len : ℕ = min (length all) max_len in
    let piece : List ℕ = take len all in
    let long : length piece ≡ len = length-take {0} len all (omega arith) in
    let n : ℕ = (accept piece l.quota).0 in
    let qs : List ℕ = (accept piece l.quota).1 in
    let t : Taken piece l.quota (n, qs) =
      accept-Taken piece l.quota (omega (arith, long)) w.0 (omega (arith, w.1)) in
    let l' : Link = record l { quota = qs; outgoing = l.outgoing ++ take n piece } in
    let left : length (drop n all) ≡ length all - n = length-drop {0} n all in
    let s : Sent (drop n all) l' (write_rounds max_len rounds (drop n all) l') =
      write_rounds-Sent max_len rounds (drop n all) l' pos (omega (arith, t.some_taken, left))
        (t.willing, omega (arith, w.1, t.cost, t.some_taken, left)) in
    rw (lt→== 0 (suc (length bs)) (omega arith), lt→== 0 n t.some_taken)
      (record {
        result_eq = s.result_eq;
        outgoing_eq =
            s.outgoing_eq
            ∙ append_assoc l.outgoing (take n piece) (drop n all)
            ∙ ap (λ (ys : List ℕ). l.outgoing ++ (ys ++ drop n all))
                (take-take {0} n len all (omega (arith, t.bounded, long)))
            ∙ ap (λ (ys : List ℕ). l.outgoing ++ ys) (take-append-drop n all);
        willing = s.willing;
        cost = omega (arith, s.cost, t.cost, t.some_taken, left, t.bounded, long);
        incoming_eq = s.incoming_eq;
        closed_eq = s.closed_eq;
      })

-- writeFixSize of 1 to 2^31 - 1 bytes, where every write takes a byte at least: it ends with all of
-- them taken, in order.
pub write_fix_size-Sent :
    (max_len : ℕ) (bytes : List ℕ) (l : Link)
    → 0 < max_len
    → 0 < length bytes
    → length bytes < 2 ^ 31
    → IsWilling (length bytes) l
    → Sent bytes l (write_fix_size max_len bytes l)
unfolding write_fix_size
write_fix_size-Sent max_len bytes l pos some_bytes small w =
    let s : Sent bytes l (write_rounds max_len (length bytes) bytes l) =
      write_rounds-Sent max_len (length bytes) bytes l pos (omega arith) w in
    record {
      result_eq = rw (s.result_eq, positive_int_lem (length bytes) some_bytes small) refl;
      outgoing_eq = s.outgoing_eq;
      willing = s.willing;
      cost = s.cost;
      incoming_eq = s.incoming_eq;
      closed_eq = s.closed_eq;
    }

-- Of nothing: a read and a write of size 0 report failure.
pub fix_size_zero :
    (max_len : ℕ) (l : Link)
    → ((read_fix_size max_len 0 l).0 ≡ none) × ((write_fix_size max_len [] l).0 ≡ false)
unfolding read_fix_size write_fix_size write_rounds
fix_size_zero max_len l = (refl, refl)
