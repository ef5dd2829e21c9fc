-- ===== src/Sched/Wake.antt =====
-- `sched_wake_sleepers` of sched/sched.c: nobody sleeps too long, and nobody else is touched.
use cortex_forge_aarch64_bar.Prelude.{
  ℕ, ◌≡◌, ◌⊎◌, inl, inr, refl, List, [], ◌∷◌, map, ◌==◌, leb, ◌&&◌, arith, Bool, Bool-cases, true,
  false, if◌then◌else◌,
}
use cortex_forge_aarch64_bar.Sched.{
  ready, is_sleeping, Task, Sched, wake, wake_other, sched_wake_sleepers,
}
use cortex_forge_aarch64_bar.Sched.Pick.{All}

-- A sleeper, other than the idle task and those that wait for their next period, whose time is up.
abbrev pub overdue : ℕ → Task → Bool
overdue now t =
    (if t.pid == 0 then false else true)
    && (is_sleeping t.state && t.rt_period_cyc == 0 && leb t.sleep_until now)

-- What became of a task: the overdue are ready, the others unchanged.
abbrev pub WakeOk : ℕ → Task → Task → Type 0
WakeOk now t t' =
    ((overdue now t ≡ true) × (t' ≡ record t { state = ready; sleep_until = 0 }))
    ⊎ ((overdue now t ≡ false) × (t' ≡ t))

abbrev pub AllWake : ℕ → List Task → List Task → Type 0
AllWake now [] [] = Unit
AllWake now [] (t' ∷ ts') = ⊥
AllWake now (t ∷ ts) [] = ⊥
AllWake now (t ∷ ts) (t' ∷ ts') = WakeOk now t t' × AllWake now ts ts'

wake_other-WakeOk : (now : ℕ) (t : Task) → WakeOk now t (wake_other now t)
unfolding wake_other wake
wake_other-WakeOk now t = elim (Bool-cases (t.pid == 0)) [
  | inl z ↦ rw z (inr (refl, refl))
  | inr nz ↦
      elim (Bool-cases (is_sleeping t.state && t.rt_period_cyc == 0 && leb t.sleep_until now)) [
        | inl due ↦ rw (nz, due) (inl (refl, refl))
        | inr not_due ↦ rw (nz, not_due) (inr (refl, refl))
      ]
]

map-AllWake : (now : ℕ) (ts : List Task) → AllWake now ts (map (wake_other now) ts)
map-AllWake now [] = tt
map-AllWake now (t ∷ ts) = (wake_other-WakeOk now t, map-AllWake now ts)

NotOverdue_of_WakeOk : (now : ℕ) (t : Task) → overdue now (wake_other now t) ≡ false
NotOverdue_of_WakeOk now t = elim (wake_other-WakeOk now t) [
  | inl (h, e) ↦ rw e (ground arith)
  | inr (h, e) ↦ rw e h
]

map-NotOverdue :
    (now : ℕ) (ts : List Task) → All (λ t. overdue now t ≡ false) (map (wake_other now) ts)
map-NotOverdue now [] = tt
map-NotOverdue now (t ∷ ts) = (NotOverdue_of_WakeOk now t, map-NotOverdue now ts)

-- What a call at the tick `now` does to the ring.
pub record Woken (now : ℕ) (s s' : Sched) : Type 0 where
  pub each : AllWake now (s.current ∷ s.others) (s'.current ∷ s'.others)
  pub none_late : All (λ t. overdue now t ≡ false) (s'.current ∷ s'.others)

-- `sched_wake_sleepers` makes ready exactly the sleepers whose tick has come, other than the idle
-- task and the periodic tasks, leaves every other task as it was, and so leaves no overdue sleeper.
pub sched_wake_sleepers-Woken : (now : ℕ) (s : Sched) → Woken now s (sched_wake_sleepers now s)
unfolding sched_wake_sleepers
sched_wake_sleepers-Woken now s = record {
  each = (wake_other-WakeOk now s.current, map-AllWake now s.others);
  none_late = (NotOverdue_of_WakeOk now s.current, map-NotOverdue now s.others);
}
