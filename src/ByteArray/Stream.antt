-- ===== src/ByteArray/Stream.antt =====
-- The promise of ByteArray: a byte sequence with a cursor, of which blocks are no part.
use cpp_linux_server.Base.{ℕ, ◌-◌, ◌*◌, ◌/◌, ◌≤◌, ◌<◌, ◌≡◌, List, ◌++◌, length, take, drop, concat}
use cpp_linux_server.ByteArray.{ByteArray, Endian}
use cpp_linux_server.ByteArray.Blocks.{AreBlocks}

-- The bytes before the position, those from it to the end, and the byte order in force.
pub record Stream : Type 0 where
  pub before : List ℕ
  pub after : List ℕ
  pub order : Endian

abbrev pub written : List ℕ → Stream → Stream
written buf s = record s { before = s.before ++ buf; after = drop (length buf) s.after }

abbrev pub advanced : ℕ → Stream → Stream
advanced n s = record s { before = s.before ++ take n s.after; after = drop n s.after }

abbrev pub rewound : ℕ → Stream → Stream
rewound v s = record s {
  before = take v (s.before ++ s.after);
  after = drop v (s.before ++ s.after);
}

abbrev pub view : ByteArray → Stream
view ba = record {
  before = take ba.position (concat ba.nodes);
  after = take (ba.size - ba.position) (drop ba.position (concat ba.nodes));
  order = ba.endian;
}

-- Blocks of one size, whose number is the capacity; m_cur at the block of the position; the
-- position within the size, and that within the capacity.
pub record IsValid (ba : ByteArray) : Type 0 where
  pub base_pos : 0 < ba.base_size
  pub blocks : AreBlocks ba.base_size ba.nodes
  pub capacity_eq : ba.capacity ≡ length ba.nodes * ba.base_size
  pub cur_eq : ba.cur ≡ ba.position / ba.base_size
  pub position_le : ba.position ≤ ba.size
  pub size_le : ba.size ≤ ba.capacity
  pub rooted : 0 < length ba.nodes
