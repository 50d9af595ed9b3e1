-- ===== src/Tasks/Tests.antt =====
-- A round with three tasks.
use lssvc.Tasks.{TaskMgr, filter, new_task, work}
use lssvc.Tasks.Due.{Distinct, work-due}
use lssvc.Common.{[], false, if◌then◌else◌, refl, true, ◌==◌, ◌∷◌, ◌≡◌}

abbrev three_tasks : TaskMgr
three_tasks = record {
  table = λ k.
      if k == 1
      then new_task 0 5 true
      else if k == 2
      then new_task 0 5 false
      else new_task 0 50 true;
  tasks = 1 ∷ 2 ∷ 3 ∷ [];
  ran = [];
}

work-due_example :
    ((work 10 three_tasks).ran ≡ 1 ∷ 2 ∷ []) × ((work 10 three_tasks).tasks ≡ 1 ∷ 3 ∷ [])
unfolding filter Distinct
work-due_example = work-due 10 three_tasks ((refl, (refl, tt)), ((refl, tt), (tt, tt)))
