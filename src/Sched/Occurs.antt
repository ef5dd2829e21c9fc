-- ===== src/Sched/Occurs.antt =====
-- How often a pid occurs in the lists of sched/sched.c, and the search for one.
use cortex_forge_aarch64_bar.Prelude.{
  ℕ, ◌+◌, ◌≡◌, inl, inr, refl, List, [], ◌∷◌, ◌++◌, ◌==◌, if◌then◌else◌, arith, Option, some, none,
  Bool-cases, append_assoc, append-nil, map,
}
use cortex_forge_aarch64_bar.Sched.{Task, Found, find_pid}

-- The number of tasks with the pid `p`.
unfoldable pub occurs : ℕ → List Task → ℕ
occurs p [] = 0
occurs p (t ∷ ts) = (if t.pid == p then 1 else 0) + occurs p ts

pub occurs-append : (p : ℕ) (xs ys : List Task) → occurs p (xs ++ ys) ≡ occurs p xs + occurs p ys
unfolding occurs
occurs-append p [] ys = omega arith
occurs-append p (x ∷ xs) ys = let h = occurs-append p xs ys in omega arith

pub occurs-map :
    (p : ℕ) (f : Task → Task) (ts : List Task)
    → ((t : Task) → (f t).pid ≡ t.pid)
    → occurs p (map f ts) ≡ occurs p ts
unfolding occurs
occurs-map p f [] same = refl
occurs-map p f (t ∷ ts) same = rw (same t, occurs-map p f ts same)

abbrev pub FoundAt : ℕ → List Task → Option Found → Type 0
FoundAt p ts none = occurs p ts ≡ 0
FoundAt p ts (some f) = (ts ≡ f.before ++ f.task ∷ f.after) × (f.task.pid ≡ p)

pub occurs_one : (p : ℕ) (t : Task) → occurs p (t ∷ []) ≡ (if t.pid == p then 1 else 0)
unfolding occurs
occurs_one p t = omega arith

pub occurs_cons :
    (p : ℕ) (t : Task) (ts : List Task) → occurs p (t ∷ ts) ≡ occurs p (t ∷ []) + occurs p ts
unfolding occurs
occurs_cons p t ts = omega arith

pub find_pid-FoundAt :
    (ts seen : List Task) (p : ℕ) → occurs p seen ≡ 0 → FoundAt p (seen ++ ts) (find_pid p ts seen)
unfolding find_pid
find_pid-FoundAt [] seen p h = rw (append-nil seen) h
find_pid-FoundAt (t ∷ ts) seen p h = elim (Bool-cases (t.pid == p)) [
  | inl e ↦ rw e (refl, ground arith)
  | inr e ↦
      let k : occurs p (seen ++ t ∷ []) ≡ 0 =
        rw (occurs-append p seen (t ∷ []), h, occurs_one p t, e) refl in
      rw (e, ← append_assoc seen (t ∷ []) ts) (find_pid-FoundAt ts (seen ++ t ∷ []) p k)
]

pub occurs_nil : (p : ℕ) → occurs p [] ≡ 0
unfolding occurs
occurs_nil p = refl
