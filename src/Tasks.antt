-- ===== src/Tasks.antt =====
-- src/utils/lssvc_task.cpp and lssvc_taskmgr.cpp. A task is a number; of its callback only matters
-- whether it calls `restart`. The set of the tasks is a list without repetition, in the order in which
-- the loop of `work` comes to them. The lock makes an operation one step, and one reading of the clock
-- stands for those of a round.
pub mod Due
pub mod Tests
use lssvc.Common.{
  Bool, List, [], false, if◌then◌else◌, ltb, not, true, ℕ, ◌&&◌, ◌++◌, ◌+◌, ◌==◌, ◌||◌, ◌∷◌,
}

pub record Task : Type 0 where
  pub interval : ℕ
  pub when : ℕ
  pub restarts : Bool

-- `ran` is the sequence of the callbacks.
pub record TaskMgr : Type 0 where
  pub table : ℕ → Task
  pub tasks : List ℕ
  pub ran : List ℕ

abbrev pub new_task : ℕ → ℕ → Bool → Task
new_task now interval restarts = record {
  interval = interval;
  when = now + interval;
  restarts = restarts;
}

abbrev pub restart : ℕ → Task → Task
restart now t = record t { when = t.interval + now }

-- `run`.
unfoldable pub run : ℕ → ℕ → TaskMgr → TaskMgr
run now u m = record m {
  table = λ k. if k == u && (m.table u).restarts then restart now (m.table u) else m.table k;
  ran = m.ran ++ (u ∷ []);
}

abbrev pub is_due : ℕ → TaskMgr → ℕ → Bool
is_due now m u = ltb (m.table u).when now

-- The loop of `work`, with the tasks that it leaves.
unfoldable pub visit : ℕ → List ℕ → TaskMgr → TaskMgr × List ℕ
visit now [] m = (m, [])
visit now (u ∷ us) m =
    let after_run = visit now us (run now u m) in
    let passed = visit now us m in
    if is_due now m u
    then (if is_due now (run now u m) u then after_run else (after_run.0, u ∷ after_run.1))
    else (passed.0, u ∷ passed.1)

unfoldable pub work : ℕ → TaskMgr → TaskMgr
work now m = let (m', left) = visit now m.tasks m in record m' { tasks = left }

unfoldable pub has : ℕ → List ℕ → Bool
has u [] = false
has u (k ∷ ks) = k == u || has u ks

unfoldable pub add : ℕ → TaskMgr → TaskMgr × Bool
add u m = if has u m.tasks then (m, false) else (record m { tasks = u ∷ m.tasks }, true)

unfoldable pub filter : (ℕ → Bool) → List ℕ → List ℕ
filter p [] = []
filter p (k ∷ ks) = let rest = filter p ks in if p k then k ∷ rest else rest

unfoldable pub del : ℕ → TaskMgr → TaskMgr
del u m = record m { tasks = filter (λ k. not (k == u)) m.tasks }
