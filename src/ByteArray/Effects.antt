-- ===== src/ByteArray/Effects.antt =====
-- What a client of the byte array states of its own writers and readers, in network byte order.
use cpp_linux_server.Base.{
  ℕ, ◌+◌, ◌%◌, ◌^◌, ◌<◌, ◌≡◌, refl, ap, sym, ◌∙◌, List, [], ◌∷◌, ◌++◌, length, arith, append_assoc,
  length-append, append-nil, subst,
}
use cpp_linux_server.ByteArray.{
  ByteArray, M, big_endian, ret, return, bind-ret, ◌>>=◌, ◌>>◌, write, read,
}
use cpp_linux_server.ByteArray.Stream.{Stream, IsValid, view, written}
use cpp_linux_server.ByteArray.Refines.{write-view}
use cpp_linux_server.ByteArray.Replay.{Took, read_front, written-written, length-before}
use cpp_linux_server.ByteArray.Fixed.{write_fuint, write_fuint8, read_fuint, read_fuint8}
use cpp_linux_server.ByteArray.Fixed.RoundTrip.{
  wire, write_fuint-view, write_fuint8-view, read_fuint_lem, read_fuint8_lem,
}

-- The array is valid, in network byte order.
pub record IsNetwork (ba : ByteArray) : Type 0 where
  pub valid : IsValid ba
  pub order : ba.endian ≡ big_endian

-- `m` writes `enc` at the cursor.
pub record Wrote (enc : List ℕ) (ba ba' : ByteArray) : Type 0 where
  pub network : IsNetwork ba'
  pub view_eq : view ba' ≡ written enc (view ba)

abbrev pub Writes : List ℕ → M (Unit {0}) → Type 0
Writes enc m =
    (ba : ByteArray) → IsNetwork ba → (ba' : ByteArray) × (m ba ≡ ret tt ba') × Wrote enc ba ba'

-- `m` reads `xs`, behind the cursor and short of the end of the capacity, as `a`.
pub record Read (xs rest : List ℕ) (ba ba' : ByteArray) : Type 0 where
  pub network : IsNetwork ba'
  pub after_eq : (view ba').after ≡ rest
  pub position_eq : ba'.position ≡ ba.position + length xs
  pub capacity_eq : ba'.capacity ≡ ba.capacity

abbrev pub Reads {ℓ} : {A : Type ℓ} → List ℕ → A → M A → Type ℓ
Reads xs a m =
    (ba : ByteArray) (rest : List ℕ)
    → IsNetwork ba
    → (view ba).after ≡ xs ++ rest
    → ba.position + length xs < ba.capacity
    → (ba' : ByteArray) × (m ba ≡ ret a ba') × Read xs rest ba ba'

pub Writes-bind :
    {xs ys : List ℕ} (m n : M (Unit {0})) → Writes xs m → Writes ys n → Writes (xs ++ ys) (m >> n)
Writes-bind {xs} {ys} m n w v ba h =
    let (ba', e, p) = w ba h in
    let (ba'', f, q) = v ba' p.network in
    (
      ba'',
      bind-ret m (λ _. n) e ∙ f,
      record {
        network = q.network;
        view_eq =
            q.view_eq
            ∙ ap (λ (s : Stream). written ys s) p.view_eq
            ∙ written-written xs ys (view ba);
      },
    )

pub Writes-write : (bs : List ℕ) → Writes bs (write bs)
Writes-write bs ba h =
    let (ba', e, v, w) = write-view bs ba h.valid in
    (
      ba',
      e,
      record {
        network = record { valid = v; order = ap (λ (s : Stream). s.order) w ∙ h.order };
        view_eq = w;
      },
    )

pub Writes-fuint : (w v : ℕ) → Writes (wire w big_endian v) (write_fuint w v)
Writes-fuint w v ba h =
    let (ba', e, v', p) = write_fuint-view w v ba h.valid in
    (
      ba',
      e,
      record {
        network = record { valid = v'; order = ap (λ (s : Stream). s.order) p ∙ h.order };
        view_eq = p ∙ ap (λ o. written (wire w o v) (view ba)) h.order;
      },
    )

pub Writes-fuint8 : (v : ℕ) → v < 256 → Writes (v ∷ []) (write_fuint8 v)
Writes-fuint8 v small ba h =
    let (ba', e, v', p) = write_fuint8-view v ba h.valid in
    let same : v % 256 ≡ v = omega arith in
    (
      ba',
      e,
      record {
        network = record { valid = v'; order = ap (λ (s : Stream). s.order) p ∙ h.order };
        view_eq = p ∙ ap (λ (b : ℕ). written (b ∷ []) (view ba)) same;
      },
    )

pub Read-then :
    (xs ys rest : List ℕ) (ba ba' ba'' : ByteArray)
    → Read xs (ys ++ rest) ba ba'
    → Read ys rest ba' ba''
    → Read (xs ++ ys) rest ba ba''
Read-then xs ys rest ba ba' ba'' q q' =
    let long : length (xs ++ ys) ≡ length xs + length ys = length-append {0} xs ys in
    record {
      network = q'.network;
      after_eq = q'.after_eq;
      position_eq = omega (arith, q'.position_eq, q.position_eq, long);
      capacity_eq = q'.capacity_eq ∙ q.capacity_eq;
    }

pub Reads-bind {ℓ κ} :
    {A : Type ℓ} {B : Type κ} {xs ys : List ℕ} {a : A} {b : B} (m : M A) (f : A → M B)
    → Reads xs a m
    → Reads ys b (f a)
    → Reads (xs ++ ys) b (m >>= f)
Reads-bind {xs} {ys} m f r s ba rest h e room =
    let long : length (xs ++ ys) ≡ length xs + length ys = length-append {0} xs ys in
    let (ba', p, q) = r ba (ys ++ rest) h (e ∙ append_assoc xs ys rest) (omega (arith, long)) in
    let (ba'', p', q') =
      s ba' rest q.network q.after_eq (omega (arith, long, q.position_eq, q.capacity_eq)) in
    (ba'', bind-ret m f p ∙ p', Read-then xs ys rest ba ba' ba'' q q')

pub Reads-return {ℓ} : {A : Type ℓ} (a : A) → Reads [] a (return a)
Reads-return a ba rest h e room =
    (ba, refl, record { network = h; after_eq = e; position_eq = omega arith; capacity_eq = refl })

Took-Read :
    (xs rest : List ℕ) (ba ba' : ByteArray)
    → IsNetwork ba
    → Took xs rest ba ba'
    → Read xs rest ba ba'
Took-Read xs rest ba ba' h t = record {
  network = record { valid = t.valid; order = t.endian_eq ∙ h.order };
  after_eq = t.after_eq;
  position_eq = omega (
    arith,
    length-before ba' t.valid,
    length-before ba h.valid,
    ap length t.before_eq,
    length-append {0} (view ba).before xs,
  );
  capacity_eq = t.capacity_eq;
}

pub Reads-read : (xs : List ℕ) (n : ℕ) → n ≡ length xs → Reads xs xs (read n)
Reads-read xs n same ba rest h e room =
    let (ba', r, t) = read_front xs rest n ba h.valid (omega arith) same e in
    (ba', r, Took-Read xs rest ba ba' h t)

pub Reads-fuint : (w v : ℕ) → 0 < w → v < 256 ^ w → Reads (wire w big_endian v) v (read_fuint w)
Reads-fuint w v some small ba rest h e room =
    let here : (view ba).after ≡ wire w ba.endian v ++ rest =
      e ∙ ap (λ o. wire w o v ++ rest) (sym h.order) in
    let (ba', r, t) = read_fuint_lem w v rest ba h.valid some small here in
    let same : wire w ba.endian v ≡ wire w big_endian v = ap (λ o. wire w o v) h.order in
    (
      ba',
      r,
      Took-Read (wire w big_endian v) rest ba ba' h (subst (λ xs. Took xs rest ba ba') same t),
    )

pub Reads-fuint8 : (v : ℕ) → Reads (v ∷ []) v read_fuint8
Reads-fuint8 v ba rest h e room =
    let (ba', r, t) = read_fuint8_lem v rest ba h.valid e in
    (ba', r, Took-Read (v ∷ []) rest ba ba' h t)

-- A reader whose value is built from the last thing that it reads.
pub Reads-map {ℓ κ} :
    {A : Type ℓ} {B : Type κ} {xs : List ℕ} {a : A} (m : M A) (g : A → B)
    → Reads xs a m
    → Reads xs (g a) (m >>= λ x. return (g x))
Reads-map {a} m g r ba rest h e room =
    let (ba', p, q) = r ba rest h e room in (ba', bind-ret m (λ x. return (g x)) p, q)

pub Writes-return : Writes [] (return tt)
Writes-return ba h = (
  ba,
  refl,
  record {
    network = h;
    view_eq = λ i. record {
      before = (sym (append-nil (view ba).before)) i;
      after = (view ba).after;
      order = ba.endian;
    };
  },
)
