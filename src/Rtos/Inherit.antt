-- ===== src/Rtos/Inherit.antt =====
-- `pi_propagate` of sched/rtos.c: which priorities it changes, and how.
use cortex_forge_aarch64_bar.Prelude.{
  ℕ, zero, suc, ◌≡◌, ◌≤◌, ◌<◌, ◌⊎◌, inl, inr, refl, ◌∙◌, leb, leb→le, arith, ◌==◌, ==_refl,
  Bool-cases, Option, some, none,
}
use cortex_forge_aarch64_bar.Rtos.{RtTask, Store, put, put_task, owner_of, propagate, pi_propagate}

-- A task is as it was, or its priority went up to `prio`.
pub record Raised (prio : ℕ) (t t' : RtTask) : Type 0 where
  pub base : t'.base_priority ≡ t.base_priority
  pub state : t'.state ≡ t.state
  pub blocked_on : t'.blocked_on ≡ t.blocked_on
  pub priority : (t'.priority ≡ t.priority) ⊎ ((t.priority < prio) × (t'.priority ≡ prio))

Raised-refl : (prio : ℕ) (t : RtTask) → Raised prio t t
Raised-refl prio t = record { base = refl; state = refl; blocked_on = refl; priority = inl refl }

Raised-trans : (prio : ℕ) (a b c : RtTask) → Raised prio a b → Raised prio b c → Raised prio a c
Raised-trans prio a b c p q =
    let x = p.priority in
    let y = q.priority in
    record {
      base = q.base ∙ p.base;
      state = q.state ∙ p.state;
      blocked_on = q.blocked_on ∙ p.blocked_on;
      priority = grind arith;
    }

boost-Raised :
    (s : Store) (owner prio i : ℕ)
    → (s.tasks owner).priority < prio
    → Raised prio (s.tasks i) (put owner (record (s.tasks owner) { priority = prio }) s.tasks i)
boost-Raised s owner prio i lt = elim (Bool-cases (owner == i)) [
  | inr other ↦ rw other (Raised-refl prio (s.tasks i))
  | inl same ↦
      let e : owner ≡ i = ground arith in
      rw (← e, ==_refl owner)
        (record { base = refl; state = refl; blocked_on = refl; priority = inr (lt, refl) })
]

propagate-Raised :
    (depth : ℕ) (owner : Option ℕ) (prio : ℕ) (s : Store) (i : ℕ)
    → Raised prio (s.tasks i) ((propagate depth owner prio s).tasks i)
unfolding propagate
propagate-Raised zero owner prio s i = Raised-refl prio (s.tasks i)
propagate-Raised (suc depth) none prio s i = Raised-refl prio (s.tasks i)
propagate-Raised (suc depth) (some owner) prio s i =
    let t = s.tasks owner in
    let boosted = put_task owner (record t { priority = prio }) s in
    let next = owner_of t.blocked_on s.mutexes in
    let ih = propagate-Raised depth next prio boosted i in
    elim (Bool-cases (leb prio t.priority)) [
      | inl enough ↦ rw enough (Raised-refl prio (s.tasks i))
      | inr low ↦ rw low (
          Raised-trans prio (s.tasks i) (boosted.tasks i)
            ((propagate depth next prio boosted).tasks i)
            (boost-Raised s owner prio i (ground arith)) ih)
    ]

propagate-mutexes :
    (depth : ℕ) (owner : Option ℕ) (prio : ℕ) (s : Store)
    → (propagate depth owner prio s).mutexes ≡ s.mutexes
unfolding propagate
propagate-mutexes zero owner prio s = refl
propagate-mutexes (suc depth) none prio s = refl
propagate-mutexes (suc depth) (some owner) prio s =
    let t = s.tasks owner in
    let boosted = put_task owner (record t { priority = prio }) s in
    let ih = propagate-mutexes depth (owner_of t.blocked_on s.mutexes) prio boosted in
    elim (Bool-cases (leb prio t.priority)) [ inl enough ↦ rw enough refl | inr low ↦ rw low ih ]

pub Raised-at_least :
    (prio low : ℕ) (t t' : RtTask)
    → Raised prio t t'
    → low ≤ prio
    → low ≤ t.priority
    → low ≤ t'.priority
Raised-at_least prio low t t' h le old = let x = h.priority in grind arith

propagate-owner :
    (depth owner prio : ℕ) (s : Store)
    → prio ≤ ((propagate (suc depth) (some owner) prio s).tasks owner).priority
unfolding propagate
propagate-owner depth owner prio s =
    let t = s.tasks owner in
    let boosted = put_task owner (record t { priority = prio }) s in
    let next = owner_of t.blocked_on s.mutexes in
    let own : (boosted.tasks owner).priority ≡ prio = rw (==_refl owner) refl in
    elim (Bool-cases (leb prio t.priority)) [
      | inl enough ↦ rw enough (leb→le _ _ enough)
      | inr low ↦ rw low (
          Raised-at_least prio prio (boosted.tasks owner)
            ((propagate depth next prio boosted).tasks owner)
            (propagate-Raised depth next prio boosted owner) (omega arith) (omega arith))
    ]

-- What a call for the owner of a mutex does.
pub record Inherits (owner prio : ℕ) (s s' : Store) : Type 0 where
  pub raised : (i : ℕ) → Raised prio (s.tasks i) (s'.tasks i)
  pub same_mutexes : s'.mutexes ≡ s.mutexes
  pub owner_has : prio ≤ (s'.tasks owner).priority

-- `pi_propagate` lifts the owner of a mutex to at least the given priority; of all tasks it changes
-- nothing but priorities, which it only raises, and only to the given one.
pub pi_propagate-Inherits :
    (owner prio : ℕ) (s : Store) → Inherits owner prio s (pi_propagate (some owner) prio s)
unfolding pi_propagate
pi_propagate-Inherits owner prio s = record {
  raised = propagate-Raised 8 (some owner) prio s;
  same_mutexes = propagate-mutexes 8 (some owner) prio s;
  owner_has = propagate-owner 7 owner prio s;
}
