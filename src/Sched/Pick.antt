-- ===== src/Sched/Pick.antt =====
-- `schedule` of sched/sched.c: which task it picks, and what becomes of the ring.
use cortex_forge_aarch64_bar.Prelude.{
  ℕ, ◌≡◌, ◌≤◌, ◌<◌, inl, inr, refl, ◌∙◌, ap, List, [], ◌∷◌, ◌++◌, ltb, ltb→lt, arith, Option, some,
  none, Bool-cases, true, false, append_assoc, append-nil,
}
use cortex_forge_aarch64_bar.Sched.{is_ready, Task, Found, consider, scan_ready}

-- A predicate on all tasks of a list.
abbrev pub All : (Task → Type 0) → List Task → Type 0
All P [] = Unit
All P (t ∷ ts) = P t × All P ts

pub All-append : (P : Task → Type 0) (xs ys : List Task) → All P xs → All P ys → All P (xs ++ ys)
All-append P [] ys p q = q
All-append P (x ∷ xs) ys (p, ps) q = (p, All-append P xs ys ps q)

pub All-mono :
    {P Q : Task → Type 0} (xs : List Task) → ((t : Task) → P t → Q t) → All P xs → All Q xs
All-mono [] f p = tt
All-mono (x ∷ xs) f (p, ps) = (f x p, All-mono xs f ps)

abbrev pub NotReady : Task → Type 0
NotReady t = is_ready t.state ≡ false

-- Not a candidate, or of a lower priority; and the same with an equal priority allowed.
abbrev pub Below : ℕ → Task → Type 0
Below p t = is_ready t.state ≡ true → t.priority < p

abbrev pub AtMost : ℕ → Task → Type 0
AtMost p t = is_ready t.state ≡ true → t.priority ≤ p

-- The best of a list: no candidate before it has its priority, none behind it a higher one.
pub record BestOf (ts : List Task) (f : Found) : Type 0 where
  pub cut : ts ≡ f.before ++ f.task ∷ f.after
  pub candidate : is_ready f.task.state ≡ true
  pub first : All (Below f.task.priority) f.before
  pub highest : All (AtMost f.task.priority) f.after

abbrev pub Scanned : List Task → Option Found → Type 0
Scanned ts none = All NotReady ts
Scanned ts (some f) = BestOf ts f

snoc-cut :
    (xs : List Task) (x : Task) (ys : List Task) (t : Task)
    → (xs ++ x ∷ ys) ++ t ∷ [] ≡ xs ++ x ∷ (ys ++ t ∷ [])
snoc-cut xs x ys t = append_assoc xs (x ∷ ys) (t ∷ [])

consider-upgrade :
    (t : Task) (seen : List Task) (f : Found)
    → BestOf seen f
    → is_ready t.state ≡ true
    → f.task.priority < t.priority
    → BestOf (seen ++ t ∷ []) (record { before = seen; task = t; after = [] })
consider-upgrade t seen f b r lt = record {
  cut = refl;
  candidate = r;
  first = rw b.cut (
      All-append (Below t.priority) f.before (f.task ∷ f.after)
        (All-mono f.before (λ u p q. let k = p q in omega arith) b.first)
        ((λ q. lt), All-mono f.after (λ u p q. let k = p q in omega arith) b.highest));
  highest = tt;
}

consider-keep :
    (t : Task) (seen : List Task) (f : Found)
    → BestOf seen f
    → AtMost f.task.priority t
    → BestOf (seen ++ t ∷ []) (record f { after = f.after ++ t ∷ [] })
consider-keep t seen f b le = record {
  cut = ap (λ l. l ++ t ∷ []) b.cut ∙ snoc-cut f.before f.task f.after t;
  candidate = b.candidate;
  first = b.first;
  highest = All-append (AtMost f.task.priority) f.after (t ∷ []) b.highest (le, tt);
}

consider-Scanned :
    (t : Task) (seen : List Task) (best : Option Found)
    → Scanned seen best
    → Scanned (seen ++ t ∷ []) (consider t seen best)
unfolding consider
consider-Scanned t seen none none_ready = elim (Bool-cases (is_ready t.state)) [
  | inl r ↦ rw r (record {
    cut = refl;
    candidate = r;
    first = All-mono seen (λ u p q. absurd (ground arith)) none_ready;
    highest = tt;
  })
  | inr r ↦ rw r (All-append NotReady seen (t ∷ []) none_ready (r, tt))
]
consider-Scanned t seen (some f) b = elim (Bool-cases (is_ready t.state)) [
  | inr r ↦ rw r (consider-keep t seen f b (λ q. absurd (ground arith)))
  | inl r ↦ elim (Bool-cases (ltb f.task.priority t.priority)) [
    | inl lt ↦ rw (r, lt) (consider-upgrade t seen f b r (ltb→lt _ _ lt))
    | inr ge ↦ rw (r, ge) (consider-keep t seen f b (λ q. ground arith))
  ]
]

pub scan_ready-Scanned :
    (ts seen : List Task) (best : Option Found)
    → Scanned seen best
    → Scanned (seen ++ ts) (scan_ready ts seen best)
unfolding scan_ready
scan_ready-Scanned [] seen best b = rw (append-nil seen) b
scan_ready-Scanned (t ∷ ts) seen best b =
    rw (← append_assoc seen (t ∷ []) ts) (
      scan_ready-Scanned ts (seen ++ t ∷ []) (consider t seen best)
        (consider-Scanned t seen best b))

pub NotReady-Below : (ts : List Task) (p : ℕ) → All NotReady ts → All (Below p) ts
NotReady-Below ts p h = All-mono ts (λ u n q. absurd (ground arith)) h

pub BestOf-Below :
    (ts : List Task) (f : Found) (p : ℕ) → BestOf ts f → f.task.priority < p → All (Below p) ts
BestOf-Below ts f p b lt = rw b.cut (
    All-append (Below p) f.before (f.task ∷ f.after)
      (All-mono f.before (λ u h q. let k = h q in omega arith) b.first)
      ((λ q. lt), All-mono f.after (λ u h q. let k = h q in omega arith) b.highest))
