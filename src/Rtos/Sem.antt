-- ===== src/Rtos/Sem.antt =====
-- The semaphore of sched/rtos.c: no permit is lost and none is made up.
use cortex_forge_aarch64_bar.Prelude.{
  ℕ, ◌+◌, ◌≡◌, ◌<◌, ◌⊎◌, inl, inr, refl, sym, List, [], ◌∷◌, ltb, arith, Option, some, none, Bool,
  Bool-cases, true, false, ltb→lt, ◌^◌,
}
use cortex_forge_aarch64_bar.Rtos.{RtSem, rt_sem_init, rt_sem_wait, post_to, rt_sem_post}

-- One for a wait that returns at once, and for a post that lets a task go on.
abbrev pub passes_wait : Bool → ℕ
passes_wait true = 0
passes_wait false = 1

abbrev pub passes_post : Option ℕ → ℕ
passes_post none = 0
passes_post (some w) = 1

-- The states of a semaphore, with the waits that were let through and the posts so far.
pub data SemRun (initial : ℕ) : RtSem → ℕ → ℕ → Type 0 where
  started : SemRun initial (rt_sem_init initial) 0 0
  waited :
      {s : RtSem} {passed posted : ℕ} (priority : ℕ → ℕ) (me : ℕ)
      → SemRun initial s passed posted
      → SemRun initial
          (rt_sem_wait priority me s).1
          (passed + passes_wait (rt_sem_wait priority me s).0)
          posted
  posted_to :
      {s : RtSem} {passed posted : ℕ}
      → s.count + 1 < 2 ^ 31
      → SemRun initial s passed posted
      → SemRun initial (rt_sem_post s).1 (passed + passes_post (rt_sem_post s).0) (posted + 1)

-- Permits are conserved, and a task waits only when there is none.
pub record Permits (initial : ℕ) (s : RtSem) (passed posted : ℕ) : Type 0 where
  pub conserved : s.count + passed ≡ initial + posted
  pub used_up : (s.count ≡ 0) ⊎ (s.waiters ≡ [])

rt_sem_wait-Permits :
    (initial passed posted : ℕ) (s : RtSem) (priority : ℕ → ℕ) (me : ℕ)
    → Permits initial s passed posted
    → Permits initial
        (rt_sem_wait priority me s).1
        (passed + passes_wait (rt_sem_wait priority me s).0)
        posted
unfolding rt_sem_wait
rt_sem_wait-Permits initial passed posted s priority me h =
    let c = h.conserved in
    elim (Bool-cases (ltb 0 s.count)) [
      | inr empty ↦ rw empty (record { conserved = omega arith; used_up = inl (ground arith) })
      | inl free ↦
          let pos : 0 < s.count = ltb→lt _ _ free in
          rw free (record {
            conserved = omega arith;
            used_up = elim h.used_up [ inl z ↦ absurd (omega arith) | inr e ↦ inr e ];
          })
    ]

post_to-Permits :
    (initial passed posted : ℕ) (s : RtSem) (q : List ℕ)
    → q ≡ s.waiters
    → Permits initial s passed posted
    → Permits initial (post_to q s).1 (passed + passes_post (post_to q s).0) (posted + 1)
unfolding post_to
post_to-Permits initial passed posted s [] e h =
    let c = h.conserved in record { conserved = omega arith; used_up = inr (sym e) }
post_to-Permits initial passed posted s (w ∷ rest) e h =
    let c = h.conserved in
    record {
      conserved = omega arith;
      used_up = elim h.used_up [ inl z ↦ inl z | inr none_waits ↦ absurd (cc (e, none_waits)) ];
    }

-- After any waits and posts, the count of a semaphore and the waits it let through make up its
-- initial count and its posts, and tasks wait only while the count is 0. The count stays below 2^31.
pub SemRun-Permits :
    {initial : ℕ} {s : RtSem} {passed posted : ℕ}
    → SemRun initial s passed posted
    → Permits initial s passed posted
unfolding rt_sem_post
SemRun-Permits started = record { conserved = omega arith; used_up = inr refl }
SemRun-Permits (waited priority me r) = rt_sem_wait-Permits _ _ _ _ priority me (SemRun-Permits r)
SemRun-Permits (posted_to fits r) = post_to-Permits _ _ _ _ _ refl (SemRun-Permits r)
