-- ===== src/Rtos/Queue.antt =====
-- `wq_insert` of sched/rtos.c: where a task goes in a wait queue.
use cortex_forge_aarch64_bar.Prelude.{
  ℕ, ◌≡◌, ◌≤◌, ◌<◌, inl, inr, refl, ap, List, [], ◌∷◌, ◌++◌, leb, leb→le, arith, Bool-cases,
}
use cortex_forge_aarch64_bar.Rtos.{insert_behind, wq_insert}

-- A predicate on all numbers of a list.
abbrev pub Each : (ℕ → Type 0) → List ℕ → Type 0
Each P [] = Unit
Each P (x ∷ xs) = P x × Each P xs

-- The highest priority first.
abbrev pub Sorted : (ℕ → ℕ) → List ℕ → Type 0
Sorted priority [] = Unit
Sorted priority (x ∷ q) = Each (λ y. priority y ≤ priority x) q × Sorted priority q

-- The task stands behind all that have at least its priority, and before the others.
pub record Inserted (priority : ℕ → ℕ) (me : ℕ) (q q' : List ℕ) : Type 0 where
  pub front : List ℕ
  pub back : List ℕ
  pub split : q ≡ front ++ back
  pub placed : q' ≡ front ++ me ∷ back
  pub above : Each (λ x. priority me ≤ priority x) front
  pub below : Each (λ x. priority x < priority me) back
  pub sorted : Sorted priority q'

Each-mono : (P Q : ℕ → Type 0) (xs : List ℕ) → ((x : ℕ) → P x → Q x) → Each P xs → Each Q xs
Each-mono P Q [] f h = tt
Each-mono P Q (x ∷ xs) f (p, ps) = (f x p, Each-mono P Q xs f ps)

insert_behind-Each :
    (P : ℕ → Type 0) (priority : ℕ → ℕ) (me : ℕ) (q : List ℕ)
    → P me
    → Each P q
    → Each P (insert_behind priority me q)
unfolding insert_behind
insert_behind-Each P priority me [] p h = (p, tt)
insert_behind-Each P priority me (x ∷ q) p (px, h) =
    let ih = insert_behind-Each P priority me q p h in
    elim (Bool-cases (leb (priority me) (priority x))) [
      | inl le ↦ rw le (px, ih)
      | inr gt ↦ rw gt (p, (px, h))
    ]

insert_behind-Inserted :
    (priority : ℕ → ℕ) (me : ℕ) (q : List ℕ)
    → Sorted priority q
    → Inserted priority me q (insert_behind priority me q)
unfolding insert_behind
insert_behind-Inserted priority me [] h = record {
  front = [];
  back = [];
  split = refl;
  placed = refl;
  above = tt;
  below = tt;
  sorted = (tt, tt);
}
insert_behind-Inserted priority me (x ∷ q) (top, h) =
    let ih = insert_behind-Inserted priority me q h in
    elim (Bool-cases (leb (priority me) (priority x))) [
      | inl le ↦
          let higher : priority me ≤ priority x = leb→le _ _ le in
          rw le (record {
            front = x ∷ ih.front;
            back = ih.back;
            split = ap (λ l. x ∷ l) ih.split;
            placed = ap (λ l. x ∷ l) ih.placed;
            above = (higher, ih.above);
            below = ih.below;
            sorted = (
              insert_behind-Each (λ y. priority y ≤ priority x) priority me q higher top,
              ih.sorted,
            );
          })
      | inr gt ↦
          let lower : priority x < priority me = ground arith in
          let all_lower : Each (λ y. priority y < priority me) q =
            Each-mono (λ y. priority y ≤ priority x) (λ y. priority y < priority me) q
              (λ y le. omega arith) top in
          rw gt (record {
            front = [];
            back = x ∷ q;
            split = refl;
            placed = refl;
            above = tt;
            below = (lower, all_lower);
            sorted = (
              ((
                omega arith,
                Each-mono (λ y. priority y < priority me) (λ y. priority y ≤ priority me) q
                    (λ y lt. omega arith) all_lower,
              )),
              (top, h),
            );
          })
    ]

-- The test at the head of the queue is the one of the loop.
wq_insert-insert_behind :
    (priority : ℕ → ℕ) (me : ℕ) (q : List ℕ) → wq_insert priority me q ≡ insert_behind priority me q
unfolding wq_insert insert_behind
wq_insert-insert_behind priority me [] = refl
wq_insert-insert_behind priority me (x ∷ q) = ground arith

-- `wq_insert` keeps a wait queue sorted by priority, the highest first: the new task goes behind
-- those of its own priority, which came earlier, and the others keep their order.
pub wq_insert-Inserted :
    (priority : ℕ → ℕ) (me : ℕ) (q : List ℕ)
    → Sorted priority q
    → Inserted priority me q (wq_insert priority me q)
wq_insert-Inserted priority me q h =
    rw (wq_insert-insert_behind priority me q) (insert_behind-Inserted priority me q h)
