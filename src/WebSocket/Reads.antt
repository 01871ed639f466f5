-- ===== src/WebSocket/Reads.antt =====
-- The reads of WSRecvMessage on any bytes: how much they give and take.
use cpp_linux_server.Base.{
  ℕ, zero, suc, ◌+◌, ◌-◌, ◌^◌, ◌≤◌, ◌<◌, ◌≡◌, ◌⊎◌, refl, ap, List, [], ◌∷◌, length, Bool, true,
  false, leb, ◌==◌, if◌then◌else◌, Option, none, some, arith, length-append, take-append-drop, inl,
  inr, min, take, drop, le-cases, concat, lt→leb, le→leb, lt→==,
}
use cpp_linux_server.Stream.Delivery.{concat-unread}
use cpp_linux_server.ByteArray.Fixed.{of_bytes, byteswap}
use cpp_linux_server.ByteArray.Fixed.RoundTrip.{byteswap-lt}
use cpp_linux_server.Stream.{
  Link, arrive, receive, prefixed, read_rounds, positive_int, read_fix_size,
}
use cpp_linux_server.WebSocket.{
  Config, Round, broken, then_round, with_bytes, with_length, with_key,
}

arrive-short : (len : ℕ) (ss : List (List ℕ)) → length (arrive len ss).0 ≤ len
arrive-short len [] = omega arith
arrive-short len (s ∷ ss) = taken len s
  where
    taken : (n : ℕ) (xs : List ℕ) → length (take n xs) ≤ n
    taken zero xs = omega arith
    taken (suc n) [] = omega arith
    taken (suc n) (x ∷ xs) = omega (arith, taken n xs)

-- A result, where there is one, has n bytes.
abbrev Sized : ℕ → Option (List ℕ) → Type 0
Sized n none = Unit {0}
Sized n (some bytes) = length bytes ≡ n

prefixed-Sized :
    (n k : ℕ) (got : List ℕ) (r : Option (List ℕ) × Link)
    → n ≡ length got + k
    → Sized k r.0
    → Sized n (prefixed got r).0
prefixed-Sized n k got (none, l) e s = tt
prefixed-Sized n k got (some more, l) e s = omega (arith, length-append {0} got more, s)

-- A read of `left` bytes gives them all or nothing.
read_rounds-Sized :
    (max_len rounds left : ℕ) (l : Link) → Sized left (read_rounds max_len rounds left l).0
unfolding read_rounds receive
read_rounds-Sized max_len zero zero l = refl
read_rounds-Sized max_len zero (suc left) l = rw (lt→== 0 (suc left) (omega arith)) tt
read_rounds-Sized max_len (suc rounds) zero l = refl
read_rounds-Sized max_len (suc rounds) (suc left) l =
    let len : ℕ = min (suc left) max_len in
    let got : List ℕ = (arrive len l.incoming).0 in
    let l' : Link = record l { incoming = (arrive len l.incoming).1 } in
    let more = read_rounds max_len rounds (suc left - length got) l' in
    let rest : Sized (suc left - length got) more.0 =
      read_rounds-Sized max_len rounds (suc left - length got) l' in
    rw (lt→== 0 (suc left) (omega arith)) (
      by_size (length got == 0) _ _ (
        prefixed-Sized (suc left) (suc left - length got) got more
          (omega (arith, arrive-short len l.incoming)) rest))
  where
    by_size :
        (b : Bool) (r : Option (List ℕ) × Link) (l' : Link)
        → Sized (suc left) r.0
        → Sized (suc left) (if b then (none, l') else r).0
    by_size true r l' s = tt
    by_size false r l' s = s

-- A result has the size, or the size is that of a negative int64_t and there are no bytes.
abbrev Fitting : ℕ → Option (List ℕ) → Type 0
Fitting size none = Unit {0}
Fitting size (some bytes) =
    ((size < 2 ^ 63) × (length bytes ≡ size)) ⊎ ((2 ^ 63 ≤ size) × (bytes ≡ []))

read_fix_size-Fitting :
    (max_len size : ℕ) (l : Link) → Fitting size (read_fix_size max_len size l).0
unfolding read_fix_size
read_fix_size-Fitting max_len size l = elim (le-cases (2 ^ 63) size) [
  | inl large ↦ rw (le→leb (2 ^ 63) size large) (huge (positive_int size) large)
  | inr small ↦ rw (lt→leb (2 ^ 63) size small) (
      usual (positive_int size) small (read_rounds max_len size size l).0
        (read_rounds-Sized max_len size size l))
]
  where
    huge : (b : Bool) → 2 ^ 63 ≤ size → Fitting size (if b then some [] else none)
    huge true h = inr (h, refl)
    huge false h = tt

    usual :
        (b : Bool)
        → size < 2 ^ 63
        → (o : Option (List ℕ)) → Sized size o
        → Fitting size (if b then o else none)
    usual true h none s = tt
    usual true h (some bytes) s = inl (h, s)
    usual false h o s = tt

-- The bytes that are still to come.
abbrev pub pending : Link → ℕ
pending l = length (concat l.incoming)

abbrev given : Option (List ℕ) → ℕ
given none = 0
given (some bytes) = length bytes

arrive-pending :
    (len : ℕ) (ss : List (List ℕ))
    → length (concat (arrive len ss).1) + length (arrive len ss).0 ≡ length (concat ss)
arrive-pending len [] = refl
arrive-pending len (s ∷ ss) = omega (
  arith,
  ap length (concat-unread (drop len s) ss),
  length-append {0} (drop len s) (concat ss),
  length-append {0} s (concat ss),
  ap length (take-append-drop len s),
  length-append {0} (take len s) (drop len s),
)

prefixed-pending :
    (n : ℕ) (got : List ℕ) (r : Option (List ℕ) × Link)
    → pending r.1 + given r.0 + length got ≤ n
    → pending (prefixed got r).1 + given (prefixed got r).0 ≤ n
prefixed-pending n got (none, l) h = omega arith
prefixed-pending n got (some more, l) h = omega (arith, length-append {0} got more)

read_rounds-pending :
    (max_len rounds left : ℕ) (l : Link)
    → pending (read_rounds max_len rounds left l).1 + given (read_rounds max_len rounds left l).0
      ≤ pending l
unfolding read_rounds receive
read_rounds-pending max_len zero zero l = omega arith
read_rounds-pending max_len zero (suc left) l = rw (lt→== 0 (suc left) (omega arith)) (omega arith)
read_rounds-pending max_len (suc rounds) zero l = omega arith
read_rounds-pending max_len (suc rounds) (suc left) l =
    let len : ℕ = min (suc left) max_len in
    let got : List ℕ = (arrive len l.incoming).0 in
    let l' : Link = record l { incoming = (arrive len l.incoming).1 } in
    let more = read_rounds max_len rounds (suc left - length got) l' in
    let rest : pending more.1 + given more.0 ≤ pending l' =
      read_rounds-pending max_len rounds (suc left - length got) l' in
    let step : pending l' + length got ≡ pending l = arrive-pending len l.incoming in
    rw (lt→== 0 (suc left) (omega arith)) (
      by_size (length got == 0) _ l' (omega (arith, step))
        (prefixed-pending (pending l) got more (omega (arith, rest, step))))
  where
    by_size :
        (b : Bool) (r : Option (List ℕ) × Link) (l' : Link)
        → pending l' ≤ pending l
        → pending r.1 + given r.0 ≤ pending l
        → pending (if b then (none, l') else r).1 + given (if b then (none, l') else r).0
          ≤ pending l
    by_size true r l' g h = omega (arith, g)
    by_size false r l' g h = h

read_fix_size-pending :
    (max_len size : ℕ) (l : Link)
    → pending (read_fix_size max_len size l).1 + given (read_fix_size max_len size l).0 ≤ pending l
unfolding read_fix_size
read_fix_size-pending max_len size l =
    positive (positive_int size)
      (if leb (2 ^ 63) size then (some [], l) else read_rounds max_len size size l)
      (by_sign (leb (2 ^ 63) size) (read_rounds max_len size size l)
        (read_rounds-pending max_len size size l))
  where
    by_sign :
        (b : Bool) (r : Option (List ℕ) × Link)
        → pending r.1 + given r.0 ≤ pending l
        → pending (if b then (some [], l) else r).1 + given (if b then (some [], l) else r).0
          ≤ pending l
    by_sign true r h = omega arith
    by_sign false r h = h

    positive :
        (b : Bool) (r : Option (List ℕ) × Link)
        → pending r.1 + given r.0 ≤ pending l
        → pending r.1 + given (if b then r.0 else none) ≤ pending l
    positive true r h = h
    positive false r h = omega (arith, h)

-- A property of every end of a read.
pub with_bytes-any :
    (P : Round → Type 0) (cfg : Config) (n : ℕ) (l : Link) (k : List ℕ → Link → Round)
    → ((l' : Link) → P (broken l'))
    → ((bytes : List ℕ) (l' : Link)
        → ((n < 2 ^ 63) × (length bytes ≡ n)) ⊎ ((2 ^ 63 ≤ n) × (bytes ≡ []))
        → pending l' + length bytes ≤ pending l
        → P (k bytes l'))
    → P (with_bytes cfg n l k)
unfolding with_bytes
with_bytes-any P cfg n l k failed got =
    split (read_fix_size cfg.max_len n l) (read_fix_size-Fitting cfg.max_len n l)
      (read_fix_size-pending cfg.max_len n l)
  where
    split :
        (r : Option (List ℕ) × Link)
        → Fitting n r.0
        → pending r.1 + given r.0 ≤ pending l
        → P (then_round r k)
    split (none, l') f h = failed l'
    split (some bytes, l') f h = got bytes l' f h

pub with_length-any :
    (P : Round → Type 0) (cfg : Config) (payload : ℕ) (l : Link) (k : ℕ → Link → Round)
    → payload < 128
    → ((l' : Link) → P (broken l'))
    → ((size : ℕ) (l' : Link) → size < 2 ^ 64 → pending l' ≤ pending l → P (k size l'))
    → P (with_length cfg payload l k)
unfolding with_length
with_length-any P cfg payload l k field failed got = by_payload (payload == 126) (payload == 127)
  where
    wide : (w : ℕ) (bytes : List ℕ) → 256 ^ w ≤ 2 ^ 64 → byteswap w (of_bytes bytes) < 2 ^ 64
    wide w bytes h = omega (arith, byteswap-lt w (of_bytes bytes))

    by_payload :
        (a b : Bool)
        → P (
            if a
            then with_bytes cfg 2 l (λ bytes l'. k (byteswap 2 (of_bytes bytes)) l')
            else if b
            then with_bytes cfg 8 l (λ bytes l'. k (byteswap 8 (of_bytes bytes)) l')
            else k payload l)
    by_payload true b =
        with_bytes-any P cfg 2 l _ failed
          (λ bytes l' f h. got _ l' (wide 2 bytes (omega arith)) (omega (arith, h)))
    by_payload false true =
        with_bytes-any P cfg 8 l _ failed
          (λ bytes l' f h. got _ l' (wide 8 bytes (omega arith)) (omega (arith, h)))
    by_payload false false = got payload l (omega arith) (omega arith)

pub with_key-any :
    (P : Round → Type 0) (cfg : Config) (masked : Bool) (l : Link) (k : List ℕ → Link → Round)
    → ((l' : Link) → P (broken l'))
    → ((key : List ℕ) (l' : Link) → pending l' ≤ pending l → P (k key l'))
    → P (with_key cfg masked l k)
unfolding with_key
with_key-any P cfg true l k failed got =
    with_bytes-any P cfg 4 l k failed (λ bytes l' f h. got bytes l' (omega (arith, h)))
with_key-any P cfg false l k failed got = got _ l (omega arith)
