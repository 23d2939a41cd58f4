-- ===== src/Task/Tests.antt =====
-- Runs of the task runner over a heap that is a list searched for its least time.
use wazo_libsccp.Task.Example.{list_heap}
use wazo_libsccp.Common.{ℕ, ◌+◌, ◌≡◌, refl, ◌≤◌, ◌<◌, true, List, [], ◌∷◌, some, arith, pos, negsuc}
use wazo_libsccp.Task.{
  Task, Runner, runner_create, runner_add, runner_run, lookup, set_when, due_time, schedule,
  next_ms,
}
use wazo_libsccp.Task.Valid.{IsValid, create-IsValid, runner_add-IsValid}
use wazo_libsccp.Task.Ends.{due, run-ends, add-IsQuiet}
use wazo_libsccp.Task.Run.{note_call, Splits, run-Splits}
use wazo_libsccp.Task.Wait.{runner_add-next_ms}

-- Callbacks 1 and 2, with the same data, and callback 1 once more.
abbrev empty_runner : Runner (List Task)
empty_runner = record { tasks = []; heap = []; data_size = 2 }

abbrev one_task : Runner (List Task)
one_task = (runner_add list_heap true 1000000 empty_runner 1 (7 ∷ 8 ∷ []) (pos 30)).1

abbrev two_tasks : Runner (List Task)
two_tasks = (runner_add list_heap true 1000000 one_task 2 (7 ∷ 8 ∷ []) (pos 2)).1

create_test : runner_create list_heap true true 2 ≡ some empty_runner
unfolding runner_create
create_test = refl

empty_runner-IsValid : IsValid list_heap empty_runner
empty_runner-IsValid = create-IsValid list_heap true true 2 empty_runner create_test

two_tasks-IsValid : IsValid list_heap two_tasks
two_tasks-IsValid = runner_add-IsValid list_heap true 1000000 one_task 2 (7 ∷ 8 ∷ []) (pos 2) (
    runner_add-IsValid list_heap true 1000000 empty_runner 1 (7 ∷ 8 ∷ []) (pos 30)
      empty_runner-IsValid)

-- Adding callback 1 again moves its time.
runner_add-IsValid_example :
    IsValid list_heap (runner_add list_heap true 2000000 two_tasks 1 (7 ∷ 8 ∷ []) (pos 1)).1
runner_add-IsValid_example =
    runner_add-IsValid list_heap true 2000000 two_tasks 1 (7 ∷ 8 ∷ []) (pos 1) two_tasks-IsValid

add_test :
    (runner_add list_heap true 2000000 two_tasks 1 (7 ∷ 8 ∷ 9 ∷ []) (negsuc 0)).1.tasks
    ≡ record { callback = 1; bytes = 7 ∷ 8 ∷ []; when = 2000000 }
      ∷ record { callback = 2; bytes = 7 ∷ 8 ∷ []; when = 3000000 }
      ∷ []
unfolding runner_add lookup set_when due_time schedule
add_test = refl

few : due list_heap 3001000 two_tasks < 5
unfolding runner_add lookup set_when due_time schedule
few = ground arith

-- Three seconds later, callback 2 is due.
run-Splits_example :
    (r' : Runner (List Task)) × (done : List Task) × (runner_run list_heap 5 note_call 3000000
        (two_tasks, [])
      ≡ some (r', done))
    × Splits list_heap 3001000 two_tasks r' done
run-Splits_example = run-Splits list_heap 3000000 5 two_tasks [] two_tasks-IsValid few

abbrev again : Task → Runner (List Task) × ℕ → Runner (List Task) × ℕ
again t s = ((runner_add list_heap true 3000000 s.0 t.callback t.bytes (pos 30)).1, s.1)

-- Every callback is put off by 30 seconds.
run-ends_example :
    (r' : Runner (List Task)) × (s' : ℕ) × (runner_run list_heap 5 again 3000000 (two_tasks, 0)
      ≡ some (r', s'))
    × (due list_heap 3001000 r' ≡ 0)
run-ends_example =
    run-ends list_heap again 3000000
      (add-IsQuiet list_heap true 3000000 3000000 30 (omega arith) (omega arith)) 5 two_tasks 0 few

added : (runner_add list_heap true 1000000 one_task 2 (7 ∷ 8 ∷ []) (pos 2)).0 ≡ true
unfolding runner_add lookup set_when due_time schedule
added = refl

not_late : (t : Task) → list_heap.peek two_tasks.heap ≡ some t → 1000000 ≤ t.when + 2147483000000
not_late t e = omega arith

runner_add-next_ms_example : (ms : ℕ) × (next_ms list_heap 1000000 two_tasks ≡ pos ms) × (ms ≤ 2000)
runner_add-next_ms_example =
    runner_add-next_ms list_heap true 1000000 one_task 2 (7 ∷ 8 ∷ []) 2 (omega arith) not_late added
