-- ===== src/Rtos/Release.antt =====
-- `rt_tick_release` of sched/rtos.c: the releases of periodic tasks, and the time for the next
-- one-shot timer.
use cortex_forge_aarch64_bar.Prelude.{
  ℕ, ◌+◌, ◌%◌, ◌^◌, ◌≡◌, ◌≤◌, ◌<◌, ◌⊎◌, inl, inr, refl, sym, ap, ◌∙◌, List, [], ◌∷◌, ltb, leb, ◌&&◌,
  arith, Bool-cases,
}
use cortex_forge_aarch64_bar.Sched.{is_sleeping}
use cortex_forge_aarch64_bar.Rtos.{Periodic, release, sooner, release_from, rt_tick_release}

-- A task that is not periodic, or whose next release and the one behind it are times after 0 that
-- fit in 64 bits.
abbrev pub Timed : Periodic → Type 0
Timed t =
    (t.rt_period_cyc ≡ 0)
    ⊎ ((0 < t.rt_next_release) × (t.rt_next_release + t.rt_period_cyc < 2 ^ 64))

abbrev pub AllTimed : List Periodic → Type 0
AllTimed [] = Unit
AllTimed (t ∷ ts) = Timed t × AllTimed ts

-- What the tick `now` makes of one task.
pub record Ticked (now : ℕ) (t t' : Periodic) : Type 0 where
  pub period : t'.rt_period_cyc ≡ t.rt_period_cyc
  pub rhythm :
      ((t.rt_period_cyc ≡ 0) × (t' ≡ t))
      ⊎ (((now < t.rt_next_release) × (t' ≡ t))
          ⊎ ((t.rt_next_release ≤ now)
              × (t'.rt_next_release ≡ t.rt_next_release + t.rt_period_cyc)))

abbrev pub AllTicked : ℕ → List Periodic → List Periodic → Type 0
AllTicked now [] [] = Unit
AllTicked now [] (t' ∷ ts') = ⊥
AllTicked now (t ∷ ts) [] = ⊥
AllTicked now (t ∷ ts) (t' ∷ ts') = Ticked now t t' × AllTicked now ts ts'

-- No release of a periodic task is before `e`.
abbrev pub NoneBefore : ℕ → List Periodic → Type 0
NoneBefore e [] = Unit
NoneBefore e (t ∷ ts) = ((t.rt_period_cyc ≡ 0) ⊎ (e ≤ t.rt_next_release)) × NoneBefore e ts

-- Some periodic task has its release at `e`.
abbrev pub SomeAt : ℕ → List Periodic → Type 0
SomeAt e [] = ⊥
SomeAt e (t ∷ ts) = ((0 < t.rt_period_cyc) × (t.rt_next_release ≡ e)) ⊎ SomeAt e ts

abbrev pub NonePeriodic : List Periodic → Type 0
NonePeriodic [] = Unit
NonePeriodic (t ∷ ts) = (t.rt_period_cyc ≡ 0) × NonePeriodic ts

release-Ticked : (now : ℕ) (t : Periodic) → Timed t → Ticked now t (release now t)
unfolding release
release-Ticked now t h = elim (Bool-cases (ltb 0 t.rt_period_cyc && leb t.rt_next_release now)) [
  | inr not_due ↦ rw not_due (record {
    period = refl;
    rhythm = elim (Bool-cases (ltb 0 t.rt_period_cyc)) [
      | inr none ↦ inl (ground arith, refl)
      | inl some_period ↦ inr (inl (ground arith, refl))
    ];
  })
  | inl due ↦
      let le : t.rt_next_release ≤ now = ground arith in
      let pos : 0 < t.rt_period_cyc = ground arith in
      let sum : (t.rt_next_release + t.rt_period_cyc) % 2 ^ 64
          ≡ t.rt_next_release + t.rt_period_cyc =
        grind arith in
      elim (Bool-cases (is_sleeping t.rt_state)) [
        | inl asleep ↦ rw (due, asleep) (record { period = refl; rhythm = inr (inr (le, sum)) })
        | inr awake ↦ rw (due, awake) (record { period = refl; rhythm = inr (inr (le, sum)) })
      ]
]

-- A released task still has its next release after 0.
abbrev Later : Periodic → Type 0
Later t = (t.rt_period_cyc ≡ 0) ⊎ (0 < t.rt_next_release)

Ticked-Later : (now : ℕ) (t t' : Periodic) → Timed t → Ticked now t t' → Later t'
Ticked-Later now t t' timed h = elim h.rhythm [
  | inl (z, e) ↦ inl (h.period ∙ z)
  | inr (inl (lt, e)) ↦ elim timed [
    | inl z ↦ inl (h.period ∙ z)
    | inr (pos, fits) ↦ let n = ap (λ x. x.rt_next_release) e in inr (omega arith)
  ]
  | inr (inr (le, e)) ↦ elim timed [
    | inl z ↦ inl (h.period ∙ z)
    | inr (pos, fits) ↦ inr (omega arith)
  ]
]

-- What `sooner` does with the earliest release so far, 0 for none.
record Sooner (e : ℕ) (t : Periodic) (e' : ℕ) : Type 0 where
  kind :
      ((t.rt_period_cyc ≡ 0) × (e' ≡ e))
      ⊎ (((0 < t.rt_period_cyc) × ((e' ≡ t.rt_next_release) × ((e ≡ 0) ⊎ (e' < e))))
          ⊎ ((0 < e) × ((e' ≡ e) × (e ≤ t.rt_next_release))))

sooner-Sooner : (e : ℕ) (t : Periodic) → Sooner e t (sooner e t)
sooner-Sooner e t = record { kind = ground arith }

-- The earliest release of the tasks, where `e0` was the earliest before them.
record Earliest (e0 e : ℕ) (ts : List Periodic) : Type 0 where
  not_before : NoneBefore e ts
  bound : (e0 ≡ 0) ⊎ ((e ≤ e0) × (0 < e))
  attained : (e ≡ e0) ⊎ SomeAt e ts
  nonzero : (0 < e) ⊎ NonePeriodic ts

Earliest-cons :
    (e0 e1 e : ℕ) (t : Periodic) (ts : List Periodic)
    → Later t
    → Sooner e0 t e1
    → Earliest e1 e ts
    → Earliest e0 e (t ∷ ts)
Earliest-cons e0 e1 e t ts later s h =
    let k = s.kind in
    let b = h.bound in
    record {
      not_before = (grind arith, h.not_before);
      bound = grind arith;
      attained = elim h.attained [
        | inr at ↦ inr (inr at)
        | inl same ↦ elim k [
          | inl (z, same0) ↦ inl (same ∙ same0)
          | inr (inl (pos, (next, less))) ↦ inr (inl (pos, sym (same ∙ next)))
          | inr (inr (pos, (same0, le))) ↦ inl (same ∙ same0)
        ]
      ];
      nonzero = elim h.nonzero [
        | inl pos ↦ inl pos
        | inr none ↦ elim k [
          | inl (z, same0) ↦ inr (z, none)
          | inr (inl (pos, (next, less))) ↦ inl (grind arith)
          | inr (inr (pos, (same0, le))) ↦ inl (grind arith)
        ]
      ];
    }

release_from-AllTicked :
    (now e0 : ℕ) (ts : List Periodic) → AllTimed ts → AllTicked now ts (release_from now e0 ts).1
unfolding release_from
release_from-AllTicked now e0 [] h = tt
release_from-AllTicked now e0 (t ∷ ts) (timed, h) =
    (release-Ticked now t timed, release_from-AllTicked now (sooner e0 (release now t)) ts h)

release_from-Earliest :
    (now e0 : ℕ) (ts : List Periodic)
    → AllTimed ts
    → Earliest e0 (release_from now e0 ts).0 (release_from now e0 ts).1
unfolding release_from
release_from-Earliest now e0 [] h = record {
  not_before = tt;
  bound = ground arith;
  attained = inl refl;
  nonzero = inr tt;
}
release_from-Earliest now e0 (t ∷ ts) (timed, h) =
    let t' = release now t in
    let e1 = sooner e0 t' in
    Earliest-cons e0 e1 (release_from now e1 ts).0 t' (release_from now e1 ts).1
      (Ticked-Later now t t' timed (release-Ticked now t timed)) (sooner-Sooner e0 t')
      (release_from-Earliest now e1 ts h)

-- What a call at the time `now` does and returns.
pub record Releases (now : ℕ) (ts ts' : List Periodic) (e : ℕ) : Type 0 where
  pub each : AllTicked now ts ts'
  pub not_before : NoneBefore e ts'
  pub attained : ((e ≡ 0) × NonePeriodic ts') ⊎ SomeAt e ts'

-- `rt_tick_release` moves the release of each periodic task whose time has come on by exactly one
-- period, leaves the other tasks as they were, and returns the earliest release that is then
-- pending, or 0 when no task is periodic. The releases are after time 0 and fit in 64 bits.
pub rt_tick_release-Releases :
    (now : ℕ) (ts : List Periodic)
    → AllTimed ts
    → Releases now ts (rt_tick_release now ts).1 (rt_tick_release now ts).0
unfolding rt_tick_release
rt_tick_release-Releases now ts h =
    let e = release_from-Earliest now 0 ts h in
    record {
      each = release_from-AllTicked now 0 ts h;
      not_before = e.not_before;
      attained = elim e.attained [
        | inr at ↦ inr at
        | inl same ↦ elim e.nonzero [ inl pos ↦ absurd (omega arith) | inr none ↦ inl (same, none) ]
      ];
    }
