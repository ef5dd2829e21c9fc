-- ===== src/Files/Tests.antt =====
-- Runs and witnesses for the descriptors of fs/vfs/vfs.c.
use cortex_forge_aarch64_bar.Prelude.{◌-◌, ◌^◌, ◌≡◌, refl, none, some, length, true}
use cortex_forge_aarch64_bar.Files.{
  Vnode, FdTable, vnode_reg, vnode_chr, max_fds, fd_table_create, alloc_from, alloc_fd, open_at,
  fd_open, file_at, fd_close, new_offset, seek_to, seek_file, fd_seek,
}
use cortex_forge_aarch64_bar.Files.Open.{OpenOutcome, fd_open-OpenOutcome, fd_close-fd_open}
use cortex_forge_aarch64_bar.Files.Seek.{SeekOutcome, fd_seek-SeekOutcome}

abbrev readme : Vnode
readme = record { node = 3; type = vnode_reg; size = 100 }

abbrev console : Vnode
console = record { node = 2; type = vnode_chr; size = 0 }

abbrev with_console : FdTable
with_console = (fd_open fd_table_create (some console) true).1

abbrev with_file : FdTable
with_file = (fd_open with_console (some readme) true).1

seek_runs :
    ((fd_open with_console (some readme) true).0 ≡ some 1)
    × ((fd_seek with_file 1 (2 ^ 64 - 30) 2).0 ≡ some 70)
    × ((fd_seek with_file 1 (2 ^ 64 - 101) 2).0 ≡ none)
    × ((fd_seek with_file 0 0 0).0 ≡ none)
    × ((fd_seek with_file 64 0 0).0 ≡ none)
unfolding fd_open alloc_fd alloc_from open_at fd_table_create fd_seek seek_file seek_to new_offset
    file_at
seek_runs = (refl, refl, refl, refl, refl)

whole : length with_file ≡ max_fds
unfolding fd_open alloc_fd alloc_from open_at fd_table_create
whole = refl

whole_console : length with_console ≡ max_fds
unfolding fd_open alloc_fd alloc_from open_at fd_table_create
whole_console = refl

gets_one : fd_open with_console (some readme) true ≡ (some 1, with_file)
unfolding fd_open alloc_fd alloc_from open_at fd_table_create
gets_one = refl

fd_open-OpenOutcome_example :
    OpenOutcome with_console (some readme) true (fd_open with_console (some readme) true)
fd_open-OpenOutcome_example = fd_open-OpenOutcome with_console (some readme) true

fd_close-fd_open_example : fd_close with_file 1 ≡ (true, with_console)
fd_close-fd_open_example = fd_close-fd_open with_console with_file readme 1 whole_console gets_one

fd_seek-SeekOutcome_example :
    SeekOutcome with_file 1 (2 ^ 64 - 30) 2 (fd_seek with_file 1 (2 ^ 64 - 30) 2)
fd_seek-SeekOutcome_example = fd_seek-SeekOutcome with_file 1 (2 ^ 64 - 30) 2 whole
