-- ===== src/Files/Seek.antt =====
-- `fd_seek` of fs/vfs/vfs.c.
use cortex_forge_aarch64_bar.Prelude.{
  ℕ, ◌+◌, ◌%◌, ◌^◌, ◌≡◌, ◌≢◌, ◌≤◌, ◌<◌, ◌⊎◌, inl, inr, refl, sym, ◌∙◌, ap, ◌==◌, Option, none, some,
  length, set, get_or-set_self, get_or-set_ne, leb, leb→le, arith, Bool-cases, true, false,
}
use cortex_forge_aarch64_bar.Files.{
  VnodeType, vnode_reg, vnode_dir, vnode_chr, vnode_blk, is_reg, File, FdTable, max_fds, file_at,
  is_chr, new_offset, seek_to, seek_file, fd_seek,
}
use mathlib.Core.Bool.{false≢true}

-- The offset that `whence` names: SEEK_SET, SEEK_CUR, and SEEK_END on a regular file. The others
-- name none.
abbrev pub Target : File → ℕ → ℕ → ℕ → Type 0
Target f position whence n =
    ((whence ≡ 0) × (n ≡ position))
    ⊎ (((whence ≡ 1) × (n ≡ (f.offset + position) % 2 ^ 64))
        ⊎ ((whence ≡ 2) × (f.vnode.type ≡ vnode_reg) × (n ≡ (f.vnode.size + position) % 2 ^ 64)))

-- The file has the offset asked for, which is not negative, and no other descriptor changed.
pub record Sought (t : FdTable) (fd position whence n : ℕ) (t' : FdTable) : Type 0 where
  pub file : File
  pub was_open : file_at t fd ≡ some file
  pub seekable : file.vnode.type ≢ vnode_chr
  pub chosen : Target file position whence n
  pub not_negative : n < 2 ^ 63
  pub moved : file_at t' fd ≡ some (record file { offset = n })
  pub others : (j : ℕ) → fd ≢ j → file_at t' j ≡ file_at t j

-- Why it returned -1: there is no open file, or it is a character device, or `whence` names no
-- offset that is not negative.
abbrev pub SeekFails : FdTable → ℕ → ℕ → ℕ → Type 0
SeekFails t fd position whence =
    (file_at t fd ≡ none)
    ⊎ ((f : File) × (file_at t fd ≡ some f)
        × ((f.vnode.type ≡ vnode_chr) ⊎ ((n : ℕ) → Target f position whence n → 2 ^ 63 ≤ n)))

abbrev pub SeekOutcome : FdTable → ℕ → ℕ → ℕ → Option ℕ × FdTable → Type 0
SeekOutcome t fd position whence (none, t') = (t' ≡ t) × SeekFails t fd position whence
SeekOutcome t fd position whence (some n, t') = Sought t fd position whence n t'

is_reg-true : (v : VnodeType) → is_reg v ≡ true → v ≡ vnode_reg
is_reg-true vnode_reg e = refl
is_reg-true vnode_dir e = absurd (ground arith)
is_reg-true vnode_chr e = absurd (ground arith)
is_reg-true vnode_blk e = absurd (ground arith)

is_chr-true : (v : VnodeType) → is_chr v ≡ true → v ≡ vnode_chr
is_chr-true vnode_reg e = absurd (ground arith)
is_chr-true vnode_dir e = absurd (ground arith)
is_chr-true vnode_chr e = refl
is_chr-true vnode_blk e = absurd (ground arith)

is_chr-false : (v : VnodeType) → is_chr v ≡ false → v ≢ vnode_chr
is_chr-false v e q = false≢true (sym e ∙ ap is_chr q)

is_reg-false : (v : VnodeType) → is_reg v ≡ false → v ≢ vnode_reg
is_reg-false v e q = false≢true (sym e ∙ ap is_reg q)

-- What `new_offset` gives is the offset named, and the only one.
abbrev Offered : File → ℕ → ℕ → Option ℕ → Type 0
Offered f position whence none = (n : ℕ) → Target f position whence n → 2 ^ 63 ≤ n
Offered f position whence (some m) =
    Target f position whence m × ((n : ℕ) → Target f position whence n → n ≡ m)

new_offset-Offered :
    (f : File) (position whence : ℕ) → Offered f position whence (new_offset f position whence)
unfolding new_offset
new_offset-Offered f position whence = elim (Bool-cases (whence == 0)) [
  | inl a ↦ rw a (inl (ground arith, refl), λ n t. grind arith)
  | inr a ↦ elim (Bool-cases (whence == 1)) [
    | inl b ↦ rw (a, b) (inr (inl (ground arith, refl)), λ n t. grind arith)
    | inr b ↦ elim (Bool-cases (whence == 2)) [
      | inr c ↦ rw (a, b, c) (λ n t. grind arith)
      | inl c ↦ elim (Bool-cases (is_reg f.vnode.type)) [
        | inl r ↦
            rw (a, b, c, r)
              (inr (inr (ground arith, is_reg-true f.vnode.type r, refl)), λ n t. grind arith)
        | inr r ↦
            let ne = is_reg-false f.vnode.type r in
            rw (a, b, c, r)
              (λ n t. elim t [
                | inl z ↦ absurd (grind arith)
                | inr (inl z) ↦ absurd (grind arith)
                | inr (inr (z, reg, e)) ↦ absurd (ne reg)
              ])
      ]
    ]
  ]
]

file_at-set_self :
    (t : FdTable) (fd : ℕ) (f g : File)
    → length t ≡ max_fds
    → file_at t fd ≡ some f
    → file_at (set t fd (some g)) fd ≡ some g
unfolding file_at
file_at-set_self t fd f g whole e = elim (Bool-cases (leb max_fds fd)) [
  | inl far ↦ let k : none ≡ some f = rw far at e in absurd (cc k)
  | inr near ↦ rw near (get_or-set_self t fd (some g) none (ground arith))
]

file_at-set_ne :
    (t : FdTable) (fd j : ℕ) (g : File) → fd ≢ j → file_at (set t fd (some g)) j ≡ file_at t j
unfolding file_at
file_at-set_ne t fd j g ne = rw (get_or-set_ne t fd j (some g) none ne) refl

seek_to-SeekOutcome :
    (t : FdTable) (fd position whence : ℕ) (f : File) (o : Option ℕ)
    → length t ≡ max_fds
    → file_at t fd ≡ some f
    → f.vnode.type ≢ vnode_chr
    → Offered f position whence o
    → SeekOutcome t fd position whence (seek_to t fd f o)
unfolding seek_to
seek_to-SeekOutcome t fd position whence f none whole e chr unset = (refl, inr (f, e, inr unset))
seek_to-SeekOutcome t fd position whence f (some n) whole e chr (target, only) =
    elim (Bool-cases (leb (2 ^ 63) n)) [
      | inl negative ↦
          let le = leb→le (2 ^ 63) n negative in
          rw negative (refl, inr (f, e, inr (λ m q. rw (only m q) le)))
      | inr fine ↦ rw fine (record {
        file = f;
        was_open = e;
        seekable = chr;
        chosen = target;
        not_negative = ground arith;
        moved = file_at-set_self t fd f (record f { offset = n }) whole e;
        others = λ j ne. file_at-set_ne t fd j (record f { offset = n }) ne;
      })
    ]

seek_file-SeekOutcome :
    (t : FdTable) (fd position whence : ℕ) (o : Option File)
    → length t ≡ max_fds
    → file_at t fd ≡ o
    → SeekOutcome t fd position whence (seek_file t fd o position whence)
unfolding seek_file
seek_file-SeekOutcome t fd position whence none whole e = (refl, inl e)
seek_file-SeekOutcome t fd position whence (some f) whole e =
    elim (Bool-cases (is_chr f.vnode.type)) [
      | inl chr ↦ rw chr (refl, inr (f, e, inl (is_chr-true f.vnode.type chr)))
      | inr fine ↦ rw fine (
          seek_to-SeekOutcome t fd position whence f (new_offset f position whence) whole e
            (is_chr-false f.vnode.type fine) (new_offset-Offered f position whence))
    ]

-- `fd_seek` on an open file that is not a character device sets and returns the offset asked for:
-- the argument itself for `whence` 0, the old offset plus it for 1, the size plus it for 2 on a
-- regular file, modulo 2^64, if this is not negative as a signed number; and it touches no other
-- descriptor. In every other case it fails and changes nothing. The table has its 64 descriptors.
pub fd_seek-SeekOutcome :
    (t : FdTable) (fd position whence : ℕ)
    → length t ≡ max_fds
    → SeekOutcome t fd position whence (fd_seek t fd position whence)
unfolding fd_seek
fd_seek-SeekOutcome t fd position whence whole =
    seek_file-SeekOutcome t fd position whence (file_at t fd) whole refl
