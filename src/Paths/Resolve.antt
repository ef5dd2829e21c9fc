-- ===== src/Paths/Resolve.antt =====
-- `vfs_resolve` of fs/vfs/vfs.c is the walk along the components of the path.
use cortex_forge_aarch64_bar.Prelude.{
  ℕ, zero, suc, ◌≡◌, ◌≤◌, ◌<◌, refl, sym, ◌∙◌, ap, List, [], ◌∷◌, ◌++◌, length, Option, none, some,
  arith,
}
use cortex_forge_aarch64_bar.Paths.{
  Text, Vfs, Lookup, slash, enter, skip_slashes, component, behind, continue_with, resolve_round,
  resolve_rounds, vfs_resolve,
}
use cortex_forge_aarch64_bar.Paths.Split.{
  words, words-skip_slashes, words-component, words-nil, Skipped, skip_slashes-Skipped,
}

-- One `enter` after the other, up to the first that fails.
unfoldable pub walk : Lookup → Vfs → ℕ → List Text → Option ℕ × Vfs
walk lookup v cur [] = (some cur, v)
walk lookup v cur (w ∷ ws) = continue_with (enter lookup v cur w) λ v' n. walk lookup v' n ws

pub continue_with-ext :
    (o : Option ℕ × Vfs) (f g : Vfs → ℕ → Option ℕ × Vfs)
    → ((v : Vfs) (n : ℕ) → f v n ≡ g v n)
    → continue_with o f ≡ continue_with o g
unfolding continue_with
continue_with-ext (none, v) f g h = refl
continue_with-ext (some n, v) f g h = h v n

resolve_round-walk :
    (lookup : Lookup) (v : Vfs) (cur : ℕ) (path p : Text) (again : Vfs → ℕ → Option ℕ × Vfs)
    → Skipped path p
    → ((v' : Vfs) (n : ℕ)
        → length (behind p) < length path
        → again v' n ≡ walk lookup v' n (words (behind p)))
    → resolve_round lookup v cur p again ≡ walk lookup v cur (words p)
unfolding resolve_round walk
resolve_round-walk lookup v cur path [] again s h = rw words-nil refl
resolve_round-walk lookup v cur path (c ∷ cs) again (other, shorter) h =
    rw (words-component c cs other) (
      continue_with-ext (enter lookup v cur (component (c ∷ cs))) again
        (λ v' n. walk lookup v' n (words (behind (c ∷ cs)))) (λ v' n. h v' n shorter))

resolve_rounds-walk :
    (lookup : Lookup) (fuel : ℕ) (v : Vfs) (cur : ℕ) (path : Text)
    → length path ≤ fuel
    → resolve_rounds lookup fuel v cur path ≡ walk lookup v cur (words path)
unfolding resolve_rounds walk
resolve_rounds-walk lookup zero v cur [] enough = rw (words-nil, walk) refl
resolve_rounds-walk lookup zero v cur (c ∷ path) enough = absurd (omega arith)
resolve_rounds-walk lookup (suc fuel) v cur path enough =
    let p = skip_slashes path in
    let ih = λ (v' : Vfs) (n : ℕ). resolve_rounds-walk lookup fuel v' n (behind p) in
    resolve_round-walk lookup v cur path p (λ v' n. resolve_rounds lookup fuel v' n (behind p))
      (skip_slashes-Skipped path) (λ v' n lt. ih v' n (omega arith))
    ∙ ap (walk lookup v cur) (words-skip_slashes path)

-- The resolution of an absolute path is the walk from the root along the components of the path, the
-- non-empty pieces between its slashes, whatever functions the file systems give for lookup; slashes
-- that are repeated or stand at the end change nothing.
pub vfs_resolve-walk :
    (lookup : Lookup) (path : Text) (v : Vfs)
    → vfs_resolve lookup (slash ∷ path) v ≡ walk lookup v v.root (words path)
unfolding vfs_resolve
vfs_resolve-walk lookup path v =
    resolve_rounds-walk lookup (length path) v v.root path (omega arith)

continue_with-continue_with :
    (o : Option ℕ × Vfs) (f g : Vfs → ℕ → Option ℕ × Vfs)
    → continue_with (continue_with o f) g ≡ continue_with o (λ v n. continue_with (f v n) g)
unfolding continue_with
continue_with-continue_with (none, v) f g = refl
continue_with-continue_with (some n, v) f g = refl

pub walk-append :
    (lookup : Lookup) (v : Vfs) (cur : ℕ) (us vs : List Text)
    → walk lookup v cur (us ++ vs)
      ≡ continue_with (walk lookup v cur us) (λ v' n. walk lookup v' n vs)
unfolding walk continue_with
walk-append lookup v cur [] vs = refl
walk-append lookup v cur (u ∷ us) vs =
    let ih = λ (v' : Vfs) (n : ℕ). walk-append lookup v' n us vs in
    continue_with-ext (enter lookup v cur u) (λ v' n. walk lookup v' n (us ++ vs))
      (λ v' n. continue_with (walk lookup v' n us) (λ v'' m. walk lookup v'' m vs)) ih
    ∙ sym (
        continue_with-continue_with (enter lookup v cur u) (λ v' n. walk lookup v' n us)
          (λ v' n. walk lookup v' n vs))
