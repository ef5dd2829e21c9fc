-- ===== src/Files/Open.antt =====
-- `fd_open` and `fd_close` of fs/vfs/vfs.c.
use cortex_forge_aarch64_bar.Prelude.{
  ℕ, suc, ◌+◌, ◌≡◌, ◌<◌, ◌⊎◌, inl, inr, refl, sym, ◌∙◌, ap, [], ◌∷◌, ◌++◌, Option, none, some,
  length, get_or, set, length-append, leb, arith, Bool, Bool-cases, true, false,
}
use mathlib.Core.Path.{subst}
use cortex_forge_aarch64_bar.Files.{
  Vnode, File, FdTable, max_fds, alloc_from, alloc_fd, open_at, fd_open, file_at, close_file,
  fd_close,
}

-- Every slot is taken.
abbrev pub Taken : FdTable → Type 0
Taken [] = Unit
Taken (none ∷ t) = ⊥
Taken (some f ∷ t) = Taken t

-- The first free slot.
pub record Least (t : FdTable) (fd : ℕ) : Type 0 where
  pub front : FdTable
  pub back : FdTable
  pub split : t ≡ front ++ none ∷ back
  pub taken : Taken front
  pub place : fd ≡ length front

abbrev AllocOk : FdTable → ℕ → Option ℕ → Type 0
AllocOk t i none = Taken t
AllocOk t i (some r) = (fd : ℕ) × (r ≡ i + fd) × Least t fd

AllocOk-cons :
    (f : File) (t : FdTable) (i : ℕ) (o : Option ℕ) → AllocOk t (suc i) o → AllocOk (some f ∷ t) i o
AllocOk-cons f t i none h = h
AllocOk-cons f t i (some r) (fd, e, least) = (
  suc fd,
  omega arith,
  record {
    front = some f ∷ least.front;
    back = least.back;
    split = ap (λ l. some f ∷ l) least.split;
    taken = least.taken;
    place = ap suc least.place;
  },
)

alloc_from-AllocOk : (t : FdTable) (i : ℕ) → AllocOk t i (alloc_from t i)
unfolding alloc_from
alloc_from-AllocOk [] i = tt
alloc_from-AllocOk (none ∷ t) i =
    (0, omega arith, record { front = []; back = t; split = refl; taken = tt; place = refl })
alloc_from-AllocOk (some f ∷ t) i =
    AllocOk-cons f t i (alloc_from t (suc i)) (alloc_from-AllocOk t (suc i))

pub set-middle :
    (front back : FdTable) (x y : Option File)
    → set (front ++ x ∷ back) (length front) y ≡ front ++ y ∷ back
set-middle [] back x y = refl
set-middle (z ∷ front) back x y = ap (λ l. z ∷ l) (set-middle front back x y)

pub get_or-middle :
    (front back : FdTable) (x d : Option File) → get_or (front ++ x ∷ back) (length front) d ≡ x
get_or-middle [] back x d = refl
get_or-middle (z ∷ front) back x d = get_or-middle front back x d

abbrev fresh_file : Vnode → File
fresh_file v = record { vnode = v; offset = 0 }

-- What `fd_open` did: the file is in the first free slot and nothing else changed, or it failed for
-- a reason and nothing changed.
abbrev pub OpenOutcome : FdTable → Option Vnode → Bool → Option ℕ × FdTable → Type 0
OpenOutcome t v has_memory (none, t') = (t' ≡ t) × ((v ≡ none) ⊎ (Taken t ⊎ (has_memory ≡ false)))
OpenOutcome t v has_memory (some fd, t') =
    (x : Vnode) × (v ≡ some x)
    × (least : Least t fd) × (t'
        ≡ least.front ++ some (record { vnode = x; offset = 0 }) ∷ least.back)

opened :
    (t : FdTable) (x : Vnode) (fd : ℕ)
    → Least t fd
    → OpenOutcome t (some x) true (some fd, set t fd (some (fresh_file x)))
opened t x fd least = (
  x,
  refl,
  least,
  rw (least.place, least.split) (set-middle least.front least.back none (some (fresh_file x))),
)

open_at-OpenOutcome :
    (t : FdTable) (x : Vnode) (o : Option ℕ) (has_memory : Bool)
    → AllocOk t 0 o
    → OpenOutcome t (some x) has_memory (open_at t x o has_memory)
unfolding open_at
open_at-OpenOutcome t x none has_memory full = (refl, inr (inl full))
open_at-OpenOutcome t x (some r) false h = (refl, inr (inr refl))
open_at-OpenOutcome t x (some r) true (fd, e, least) =
    let same : r ≡ fd = omega arith in rw same (opened t x fd least)

-- `fd_open` gives the lowest free descriptor, at offset 0, and touches no other. It fails only when
-- the path names nothing, every descriptor is taken or there is no memory, and then the table is
-- unchanged.
pub fd_open-OpenOutcome :
    (t : FdTable) (v : Option Vnode) (has_memory : Bool)
    → OpenOutcome t v has_memory (fd_open t v has_memory)
unfolding fd_open alloc_fd
fd_open-OpenOutcome t none has_memory = (refl, inl refl)
fd_open-OpenOutcome t (some x) has_memory =
    open_at-OpenOutcome t x (alloc_from t 0) has_memory (alloc_from-AllocOk t 0)

close_middle :
    (front back : FdTable) (f : File)
    → length front < max_fds
    → fd_close (front ++ some f ∷ back) (length front) ≡ (true, front ++ none ∷ back)
unfolding fd_close file_at close_file
close_middle front back f lt = elim (Bool-cases (leb max_fds (length front))) [
  | inl far ↦ absurd (ground arith)
  | inr near ↦
      rw (near, get_or-middle front back (some f) none, set-middle front back (some f) none) refl
]

-- Closing the descriptor that `fd_open` gave takes the table of 64 descriptors back to what it was.
pub fd_close-fd_open :
    (t t' : FdTable) (v : Vnode) (fd : ℕ)
    → length t ≡ max_fds
    → fd_open t (some v) true ≡ (some fd, t')
    → fd_close t' fd ≡ (true, t)
fd_close-fd_open t t' v fd whole e =
    let out : OpenOutcome t (some v) true (some fd, t') =
      subst (λ o. OpenOutcome t (some v) true o) e (fd_open-OpenOutcome t (some v) true) in
    let (x, ex, least, after) = out in
    let len = ap length least.split ∙ length-append least.front (none ∷ least.back) in
    let lt : length least.front < max_fds = omega arith in
    rw (after, least.place)
      (close_middle least.front least.back (fresh_file x) lt
        ∙ ap (λ l. (true, l)) (sym least.split))
