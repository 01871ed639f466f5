-- ===== src/FdManager.antt =====
-- chat/fd_manager.h and fd_manager.cc: the contexts of file descriptors.
--
-- A descriptor is a number, or `none` for -1. What fstat and fcntl say of a descriptor is a
-- parameter. An object is its fields; locking is left out, get is one step.
pub mod Laws
mod Runs
use cpp_linux_server.Base.{
  ℕ, ◌-◌, ◌^◌, List, [], ◌∷◌, length, get_elem?, set, replicate, Bool, true, false, not, leb, ◌==◌,
  if◌then◌else◌, Option, none, some,
}

pub record FdCtx : Type 0 where
  pub is_init : Bool
  pub is_socket : Bool
  pub sys_nonblock : Bool
  pub is_closed : Bool
  pub user_nonblock : Bool
  pub fd : ℕ
  pub recv_timeout : ℕ
  pub send_timeout : ℕ

-- fstat: `none` is -1, else whether it is a socket. F_GETFL: whether O_NONBLOCK is set.
pub record Kernel : Type 0 where
  pub fstat : ℕ → Option Bool
  pub nonblocking : ℕ → Bool

-- (uint64_t)-1
abbrev pub no_timeout : ℕ
no_timeout = 2 ^ 64 - 1

abbrev pub stat_init : Option Bool → Bool
stat_init none = false
stat_init (some s) = true

abbrev pub stat_socket : Option Bool → Bool
stat_socket none = false
stat_socket (some s) = s

-- init: the context, and whether it sets O_NONBLOCK with F_SETFL.
unfoldable pub init : Kernel → FdCtx → FdCtx × Bool
init k c =
    if c.is_init
    then (c, false)
    else let stat : Option Bool = k.fstat c.fd in
      (
        record {
          is_init = stat_init stat;
          is_socket = stat_socket stat;
          sys_nonblock = stat_socket stat;
          is_closed = false;
          user_nonblock = false;
          fd = c.fd;
          recv_timeout = no_timeout;
          send_timeout = no_timeout;
        },
        if stat_socket stat then not (k.nonblocking c.fd) else false,
      )

-- The members before init; m_userNonblock has no initializer, and init sets it.
unfoldable pub new_ctx : Kernel → ℕ → FdCtx
unfolding init
new_ctx k fd =
    (init k (record {
      is_init = false;
      is_socket = false;
      sys_nonblock = false;
      is_closed = false;
      user_nonblock = false;
      fd = fd;
      recv_timeout = no_timeout;
      send_timeout = no_timeout;
    })).0

unfoldable pub set_user_nonblock : Bool → FdCtx → FdCtx
set_user_nonblock v c = record c { user_nonblock = v }

unfoldable pub get_user_nonblock : FdCtx → Bool
get_user_nonblock c = c.user_nonblock

-- Both work on m_userNonblock.
unfoldable pub set_sys_nonblock : Bool → FdCtx → FdCtx
set_sys_nonblock v c = record c { user_nonblock = v }

unfoldable pub get_sys_nonblock : FdCtx → Bool
get_sys_nonblock c = c.user_nonblock

abbrev pub so_rcvtimeo : ℕ
so_rcvtimeo = 20

unfoldable pub set_timeout : ℕ → ℕ → FdCtx → FdCtx
set_timeout type v c =
    if type == so_rcvtimeo then record c { recv_timeout = v } else record c { send_timeout = v }

unfoldable pub get_timeout : ℕ → FdCtx → ℕ
get_timeout type c = if type == so_rcvtimeo then c.recv_timeout else c.send_timeout

pub record FdManager : Type 0 where
  pub datas : List (Option FdCtx)

unfoldable pub new_manager : FdManager
new_manager = record { datas = replicate 64 none }

-- A result and the manager behind it, or an access outside of m_datas.
pub data Got : Type 0 where
  got : Option FdCtx → FdManager → Got
  outside : Got

-- `m_datas[fd] = ctx`
unfoldable pub create_ctx : Kernel → ℕ → FdManager → Got
create_ctx k fd m =
    if leb (length m.datas) fd
    then outside
    else got (some (new_ctx k fd)) (record m { datas = set m.datas fd (some (new_ctx k fd)) })

-- `if (m_datas[fd] || !auto_create) return m_datas[fd];` and what follows.
unfoldable pub get_slot : Kernel → ℕ → Bool → FdManager → Option (Option FdCtx) → Got
get_slot k fd auto m none = outside
get_slot k fd auto m (some (some c)) = got (some c) m
get_slot k fd true m (some none) = create_ctx k fd m
get_slot k fd false m (some none) = got none m

unfoldable pub get : Kernel → Option ℕ → Bool → FdManager → Got
get k none auto m = got none m
get k (some fd) auto m =
    if leb (length m.datas) fd
    then (if auto then create_ctx k fd m else got none m)
    else get_slot k fd auto m (get_elem? m.datas fd)

unfoldable pub del : ℕ → FdManager → FdManager
del fd m = if leb (length m.datas) fd then m else record m { datas = set m.datas fd none }
