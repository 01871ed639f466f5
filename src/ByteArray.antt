-- ===== src/ByteArray.antt =====
-- chat/bytearray.h and chat/bytearray.cc: a growable byte buffer in blocks of one size.
--
-- A block is its bytes, and the chain of blocks from m_root is a list. m_cur is the index of its
-- block in the chain; the index past the last block is the null pointer. An operation returns a
-- value with the new state, throws std::out_of_range with the state that it leaves, or faults
-- where the C++ dereferences null or divides by zero.
pub mod Blocks
pub mod Stream
pub mod Capacity
pub mod Placing
pub mod Refines
pub mod Seek
pub mod Replay
pub mod Fixed
pub mod Varint
pub mod Effects
mod Runs
use cpp_linux_server.Base.{
  ℕ, zero, suc, ◌+◌, ◌-◌, ◌*◌, ◌/◌, ◌%◌, List, [], ◌∷◌, ◌++◌, Bool, true, false, ltb, leb, ◌==◌,
  if◌then◌else◌, length, take, drop, replicate, sub64, Option, none, some, ◌≡◌,
}

pub data Endian : Type 0 where
  little_endian big_endian : Endian

pub record ByteArray : Type 0 where
  pub base_size : ℕ
  pub position : ℕ
  pub capacity : ℕ
  pub size : ℕ
  pub endian : Endian
  pub nodes : List (List ℕ)
  pub cur : ℕ
  pub owner : Bool

pub data Outcome {ℓ} (A : Type ℓ) : Type ℓ where
  ret : A → ByteArray → Outcome A
  out_of_range : ByteArray → Outcome A
  fault : Outcome A

abbrev pub M {ℓ} : Type ℓ → Type ℓ
M A = ByteArray → Outcome A

infixl 5 ◌>>=◌ ◌>>◌
abbrev pub ◌>>=◌ {ℓ κ} : {A : Type ℓ} {B : Type κ} → M A → (A → M B) → M B
◌>>=◌ m f ba = elim (m ba) [
  | ret a ba' ↦ f a ba'
  | out_of_range ba' ↦ out_of_range ba'
  | fault ↦ fault
]

pub bind-ret {ℓ κ} :
    {A : Type ℓ} {B : Type κ} (m : M A) (f : A → M B) {a : A} {ba ba' : ByteArray}
    → m ba ≡ ret a ba'
    → (m >>= f) ba ≡ f a ba'
bind-ret m f e = rw (e, ◌>>=◌)

pub bind-out_of_range {ℓ κ} :
    {A : Type ℓ} {B : Type κ} (m : M A) (f : A → M B) {ba ba' : ByteArray}
    → m ba ≡ out_of_range ba'
    → (m >>= f) ba ≡ out_of_range ba'
bind-out_of_range m f e = rw (e, ◌>>=◌)

abbrev pub ◌>>◌ {ℓ κ} : {A : Type ℓ} {B : Type κ} → M A → M B → M B
m >> k = m >>= λ _. k

abbrev pub return {ℓ} : {A : Type ℓ} → A → M A
return a ba = ret a ba

-- What a byte of a new block holds before the first write to it: no byte at all.
abbrev pub unwritten : ℕ
unwritten = 256

-- new Node(s)
abbrev pub new_node : ℕ → List ℕ
new_node s = replicate s unwritten

-- ByteArray(size_t base_size)
unfoldable pub create : ℕ → ByteArray
create base = record {
  base_size = base;
  position = 0;
  capacity = base;
  size = 0;
  endian = big_endian;
  nodes = new_node base ∷ [];
  cur = 0;
  owner = true;
}

-- ByteArray(void* data, size_t size, bool owner)
unfoldable pub wrap : List ℕ → Bool → ByteArray
wrap bytes own = record {
  base_size = length bytes;
  position = 0;
  capacity = length bytes;
  size = length bytes;
  endian = big_endian;
  nodes = bytes ∷ [];
  cur = 0;
  owner = own;
}

unfoldable pub is_little_endian : ByteArray → Bool
is_little_endian ba = elim ba.endian [ little_endian ↦ true | big_endian ↦ false ]

unfoldable pub set_is_little_endian : Bool → ByteArray → ByteArray
set_is_little_endian val ba =
    if val then record ba { endian = little_endian } else record ba { endian = big_endian }

unfoldable pub get_capacity : ByteArray → ℕ
get_capacity ba = sub64 ba.capacity ba.position

unfoldable pub get_read_size : ByteArray → ℕ
get_read_size ba = sub64 ba.size ba.position

-- ceil(1.0 * size / base), which is exact below 2^53.
abbrev pub ceil_div : ℕ → ℕ → ℕ
ceil_div size base = (size + base - 1) / base

-- The for loop of addCapacity: `count` new blocks behind the last one.
unfoldable pub append_nodes : ℕ → ℕ → List (List ℕ) → List (List ℕ)
append_nodes zero base nodes = nodes
append_nodes (suc count) base nodes = append_nodes count base (nodes ++ (new_node base ∷ []))

unfoldable pub grow : ℕ → ℕ → ByteArray → ByteArray
unfolding append_nodes
grow count old_cap ba = record ba {
  nodes = append_nodes count ba.base_size ba.nodes;
  capacity = ba.capacity + count * ba.base_size;
  cur = if old_cap == 0 then length ba.nodes else ba.cur;
}

unfoldable pub add_capacity : ℕ → ByteArray → ByteArray
unfolding get_capacity grow
add_capacity size ba =
    if size == 0
    then ba
    else if leb size (get_capacity ba)
    then ba
    else grow (ceil_div (size - get_capacity ba) ba.base_size) (get_capacity ba) ba

-- `memcpy(ptr + npos, buf, length buf)` on a block that is long enough.
abbrev pub splice : ℕ → List ℕ → List ℕ → List ℕ
splice npos buf block = take npos block ++ (buf ++ drop (npos + length buf) block)

-- The loop of write from m_cur on, whose chain is `blocks`: the blocks after it, and how far
-- m_cur has moved. `none` is a dereference of null.
unfoldable pub write_loop : List (List ℕ) → ℕ → List ℕ → Option (List (List ℕ) × ℕ)
write_loop [] npos buf = none
write_loop (b ∷ blocks) npos buf =
    let ncap : ℕ = sub64 (length b) npos in
    let rest : Option (List (List ℕ) × ℕ) = write_loop blocks 0 (drop ncap buf) in
    if leb (length buf) ncap
    then some (splice npos buf b ∷ blocks, if length b == npos + length buf then 1 else 0)
    else elim rest [
      | none ↦ none
      | some (blocks', moved) ↦ some (splice npos (take ncap buf) b ∷ blocks', suc moved)
    ]

-- The body of write behind addCapacity.
unfoldable pub write_at : List ℕ → M (Unit {0})
unfolding write_loop
write_at buf ba =
    if ba.base_size == 0
    then fault
    else elim (write_loop (drop ba.cur ba.nodes) (ba.position % ba.base_size) buf) [
      | none ↦ fault
      | some (blocks, moved) ↦
          let end : ℕ = ba.position + length buf in
          ret tt (record ba {
            nodes = take ba.cur ba.nodes ++ blocks;
            cur = ba.cur + moved;
            position = end;
            size = if ltb ba.size end then end else ba.size;
          })
    ]

unfoldable pub write : List ℕ → M (Unit {0})
unfolding write_at add_capacity
write buf ba = if length buf == 0 then ret tt ba else write_at buf (add_capacity (length buf) ba)

-- The loop of read: the bytes, and how far m_cur has moved.
unfoldable pub read_loop : List (List ℕ) → ℕ → ℕ → Option (List ℕ × ℕ)
read_loop [] npos size = none
read_loop (b ∷ blocks) npos size =
    let ncap : ℕ = sub64 (length b) npos in
    let rest : Option (List ℕ × ℕ) = read_loop blocks 0 (size - ncap) in
    if size == 0
    then some ([], 0)
    else if leb size ncap
    then some (take size (drop npos b), if length b == npos + size then 1 else 0)
    else elim rest [
      | none ↦ none
      | some (bytes, moved) ↦ some (take ncap (drop npos b) ++ bytes, suc moved)
    ]

abbrev copy_out : Option (List ℕ × ℕ) → ByteArray → ℕ → Outcome (List ℕ)
copy_out none ba size = fault
copy_out (some (bytes, moved)) ba size =
    ret bytes (record ba { cur = ba.cur + moved; position = ba.position + size })

-- read(void* buf, size_t size); m_cur->size is read before the loop, for a size of 0 too.
unfoldable pub read : ℕ → M (List ℕ)
unfolding get_read_size read_loop
read size ba =
    if ltb (get_read_size ba) size
    then out_of_range ba
    else if ba.base_size == 0
    then fault
    else copy_out (read_loop (drop ba.cur ba.nodes) (ba.position % ba.base_size) size) ba size

-- read(void* buf, size_t size, size_t position) const, which starts at the block of m_cur.
unfoldable pub read_from : ℕ → ℕ → M (List ℕ)
unfolding read_loop
read_from size position ba =
    if ltb (sub64 ba.size position) size
    then out_of_range ba
    else if ba.base_size == 0
    then fault
    else elim (read_loop (drop ba.cur ba.nodes) (position % ba.base_size) size) [
      | none ↦ fault
      | some (bytes, moved) ↦ ret bytes ba
    ]

-- The walk of setPosition from m_root: the index of the block, or `none` at null.
unfoldable pub seek_loop : List (List ℕ) → ℕ → Option ℕ
seek_loop [] v = none
seek_loop (b ∷ blocks) v =
    let rest : Option ℕ = seek_loop blocks (v - length b) in
    if ltb (length b) v
    then elim rest [ none ↦ none | some i ↦ some (suc i) ]
    else some (if v == length b then 1 else 0)

unfoldable pub set_position : ℕ → M (Unit {0})
unfolding seek_loop
set_position v ba = if ltb ba.capacity v then out_of_range ba else elim (seek_loop ba.nodes v) [
  | none ↦ fault
  | some i ↦
      ret tt (record ba { position = v; size = if ltb ba.size v then v else ba.size; cur = i })
]

unfoldable pub clear : ByteArray → ByteArray
clear ba = record ba {
  position = 0;
  size = 0;
  capacity = ba.base_size;
  nodes = take 1 ba.nodes;
  cur = 0;
}

unfoldable pub to_string : M (List ℕ)
unfolding get_read_size read_from
to_string ba =
    if get_read_size ba == 0 then ret [] ba else read_from (get_read_size ba) ba.position ba
