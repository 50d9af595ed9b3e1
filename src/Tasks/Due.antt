-- ===== src/Tasks/Due.antt =====
-- What a round of `work` runs and what it leaves.
use lssvc.Tasks.{TaskMgr, filter, is_due, run, visit, work}
use mathlib.Core.List.{append-nil, append_assoc}
use lssvc.Common.{
  ==_self, All, Bool, Bool-cases, List, [], ap, arith, false, ge→ltb, inl, inr, ltb, not, refl, sym,
  true, ℕ, ◌++◌, ◌+◌, ◌==◌, ◌||◌, ◌∙◌, ◌∷◌, ◌≡◌,
}

unfoldable pub Distinct : List ℕ → Type 0
Distinct [] = Unit {0}
Distinct (u ∷ us) = All (λ k. (k == u) ≡ false) us × Distinct us

abbrev pub stays : ℕ → TaskMgr → ℕ → Bool
stays now m u = not (is_due now m u) || (m.table u).restarts

-- The tests give the same where the tasks are the same.
Agrees : TaskMgr → TaskMgr → List ℕ → Type 0
Agrees m m' us = All (λ k. m'.table k ≡ m.table k) us

run-Agrees :
    (now u : ℕ) (m : TaskMgr) (us : List ℕ)
    → All (λ k. (k == u) ≡ false) us
    → All (λ k. (run now u m).table k ≡ m.table k) us
unfolding run
run-Agrees now u m [] others = tt
run-Agrees now u m (k ∷ us) (other, others) = (simp other refl, run-Agrees now u m us others)

filter-same : (p q : ℕ → Bool) (us : List ℕ) → All (λ k. q k ≡ p k) us → filter q us ≡ filter p us
unfolding filter
filter-same p q [] same = refl
filter-same p q (k ∷ us) (e, same) = simp (e, filter-same p q us same) refl

All-map : (P Q : ℕ → Type 0) (us : List ℕ) → ((k : ℕ) → P k → Q k) → All P us → All Q us
All-map P Q [] f all = tt
All-map P Q (k ∷ us) f (p, all) = (f k p, All-map P Q us f all)

filters_agree :
    (now : ℕ) (m m' : TaskMgr) (us : List ℕ)
    → All (λ k. m'.table k ≡ m.table k) us
    → (filter (is_due now m') us ≡ filter (is_due now m) us)
      × (filter (stays now m') us ≡ filter (stays now m) us)
filters_agree now m m' us same = (
  filter-same _ _ us (All-map _ _ us (λ k e. ap (λ t. ltb t.when now) e) same),
  filter-same _ _ us (All-map _ _ us (λ k e. ap (λ t. not (ltb t.when now) || t.restarts) e) same),
)

-- After its run a task is due only if it was not started again.
due_after :
    (now u : ℕ) (m : TaskMgr)
    → is_due now m u ≡ true
    → is_due now (run now u m) u ≡ not (m.table u).restarts
unfolding run
due_after now u m due = elim (Bool-cases (m.table u).restarts) [
  | inl e ↦ simp (==_self u, e) (ge→ltb ((m.table u).interval + now) now (omega arith))
  | inr e ↦ simp (==_self u, e) due
]

run_ran : (now u : ℕ) (m : TaskMgr) → (run now u m).ran ≡ m.ran ++ (u ∷ [])
unfolding run
run_ran now u m = refl

visit_lem :
    (now : ℕ) (us : List ℕ) (m : TaskMgr)
    → Distinct us
    → ((visit now us m).1 ≡ filter (stays now m) us)
      × ((visit now us m).0.ran ≡ m.ran ++ filter (is_due now m) us)
unfolding visit Distinct filter
visit_lem now [] m distinct = (refl, sym (append-nil m.ran))
visit_lem now (u ∷ us) m (others, distinct) =
    let (kept, ran') = visit_lem now us (run now u m) distinct in
    let (kept', ran'') = visit_lem now us m distinct in
    let (same_due, same_stays) =
      filters_agree now m (run now u m) us (run-Agrees now u m us others) in
    let after =
      ran'
      ∙ ap (λ xs. (run now u m).ran ++ xs) same_due
      ∙ ap (λ xs. xs ++ filter (is_due now m) us) (run_ran now u m)
      ∙ append_assoc m.ran (u ∷ []) (filter (is_due now m) us) in
    elim (Bool-cases (is_due now m u)) [
      | inl due ↦ elim (Bool-cases (m.table u).restarts) [
        | inl e ↦
            simp (due, due_after now u m due ∙ ap not e, e)
              (ap (λ xs. u ∷ xs) (kept ∙ same_stays), after)
        | inr e ↦ simp (due, due_after now u m due ∙ ap not e, e) (kept ∙ same_stays, after)
      ]
      | inr calm ↦ simp calm (ap (λ xs. u ∷ xs) kept', ran'')
    ]

-- The loop of `work`, which erases while it goes on, against the tasks as they were before it: each
-- task whose time is past is run once, in order, and no other; what is left are the tasks whose time
-- is not past and those that their callback started again.
pub work-due :
    (now : ℕ) (m : TaskMgr)
    → Distinct m.tasks
    → ((work now m).ran ≡ m.ran ++ filter (is_due now m) m.tasks)
      × ((work now m).tasks ≡ filter (stays now m) m.tasks)
unfolding work
work-due now m distinct = let (kept, ran') = visit_lem now m.tasks m distinct in (ran', kept)
