-- ===== src/Files.antt =====
-- fs/vfs/vfs.c: the table of file descriptors of a task. What `vfs_resolve` finds for a path, and
-- whether `kmalloc` gives memory for the open file, are arguments. A device's own read, write and
-- ioctl functions are not called here. A signed 64-bit number is its two's complement, a number
-- below 2^64 that is negative from 2^63 on.
pub mod Open
pub mod Seek
mod Tests
use cortex_forge_aarch64_bar.Prelude.{
  ℕ, zero, suc, ◌+◌, ◌-◌, ◌%◌, ◌^◌, Bool, true, false, not, ◌&&◌, ◌||◌, List, [], ◌∷◌, Option, none,
  some, length, get_or, set, replicate, ltb, leb, ◌==◌, if◌then◌else◌,
}

-- `vnode_type_t`
pub data VnodeType : Type 0 where
  vnode_reg : VnodeType
  vnode_dir : VnodeType
  vnode_chr : VnodeType
  vnode_blk : VnodeType

-- The fields of `vnode_t` that the descriptors use; the number is the place in `node_pool`.
pub record Vnode : Type 0 where
  pub node : ℕ
  pub type : VnodeType
  pub size : ℕ

-- `file_t`
pub record File : Type 0 where
  pub vnode : Vnode
  pub offset : ℕ

abbrev pub max_fds : ℕ
max_fds = 64

-- `fd_table_t`
abbrev pub FdTable : Type 0
FdTable = List (Option File)

unfoldable pub fd_table_create : FdTable
fd_table_create = replicate max_fds none

-- The loop of `alloc_fd`, from the descriptor `i` on.
unfoldable pub alloc_from : FdTable → ℕ → Option ℕ
alloc_from [] i = none
alloc_from (none ∷ rest) i = some i
alloc_from (some f ∷ rest) i = alloc_from rest (suc i)

unfoldable pub alloc_fd : FdTable → Option ℕ
alloc_fd t = alloc_from t 0

unfoldable pub open_at : FdTable → Vnode → Option ℕ → Bool → Option ℕ × FdTable
open_at t v none has_memory = (none, t)
open_at t v (some fd) has_memory =
    if has_memory then (some fd, set t fd (some (record { vnode = v; offset = 0 }))) else (none, t)

-- The descriptor, or `none` for -1, and the table.
unfoldable pub fd_open : FdTable → Option Vnode → Bool → Option ℕ × FdTable
fd_open t none has_memory = (none, t)
fd_open t (some v) has_memory = open_at t v (alloc_fd t) has_memory

-- `t->fds[fd]` behind the test of the range. A negative descriptor is one above the table.
unfoldable pub file_at : FdTable → ℕ → Option File
file_at t fd = if leb max_fds fd then none else get_or t fd none

unfoldable pub close_file : FdTable → ℕ → Option File → Bool × FdTable
close_file t fd none = (false, t)
close_file t fd (some f) = (true, set t fd none)

unfoldable pub fd_close : FdTable → ℕ → Bool × FdTable
fd_close t fd = close_file t fd (file_at t fd)

abbrev pub is_chr : VnodeType → Bool
is_chr vnode_reg = false
is_chr vnode_dir = false
is_chr vnode_chr = true
is_chr vnode_blk = false

abbrev pub is_reg : VnodeType → Bool
is_reg vnode_reg = true
is_reg vnode_dir = false
is_reg vnode_chr = false
is_reg vnode_blk = false

-- `new_off` in `fd_seek`, by `whence`.
unfoldable pub new_offset : File → ℕ → ℕ → Option ℕ
new_offset f offset whence =
    if whence == 0
    then some offset
    else if whence == 1
    then some ((f.offset + offset) % 2 ^ 64)
    else if whence == 2
    then (if is_reg f.vnode.type then some ((f.vnode.size + offset) % 2 ^ 64) else none)
    else none

-- The end of `fd_seek`.
unfoldable pub seek_to : FdTable → ℕ → File → Option ℕ → Option ℕ × FdTable
seek_to t fd f none = (none, t)
seek_to t fd f (some new_off) =
    if leb (2 ^ 63) new_off
    then (none, t)
    else (some new_off, set t fd (some (record f { offset = new_off })))

unfoldable pub seek_file : FdTable → ℕ → Option File → ℕ → ℕ → Option ℕ × FdTable
seek_file t fd none offset whence = (none, t)
seek_file t fd (some f) offset whence =
    if is_chr f.vnode.type then (none, t) else seek_to t fd f (new_offset f offset whence)

unfoldable pub fd_seek : FdTable → ℕ → ℕ → ℕ → Option ℕ × FdTable
fd_seek t fd offset whence = seek_file t fd (file_at t fd) offset whence
