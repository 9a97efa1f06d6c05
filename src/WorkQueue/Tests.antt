-- ===== src/WorkQueue/Tests.antt =====
-- Runs of the two modules.
use linux_summary.Base.{◌≤◌, ◌≡◌, ◌≢◌, refl, Bool, true, false, arith}
use linux_summary.WorkQueue.{
  Work, idle, queued, running, gone, State, init_a, exit_a, init_b, exit_b, IsDestroy, Step, takes,
  round, ends, exits, printed, destroyed, removed, Run, start, step,
}
use linux_summary.WorkQueue.Order.{removed-done}

abbrev is_idle : Work → Bool
is_idle idle = true
is_idle queued = false
is_idle (running n) = false

is_idle-IsDestroy : IsDestroy is_idle
is_idle-IsDestroy = record { waits = λ w e. ground arith; returns = refl }

-- Nothing keeps work_queue_a.c from being removed while its work runs.
init_a-removed :
    Run is_idle exit_a init_a.1 4 (record { module_is = gone; work = running 3; lines = 0 })
unfolding init_a exit_a
init_a-removed = step (step (step (step start takes) exits) printed) removed

abbrev last : State
last = record { module_is = gone; work = idle; lines = 3 }

-- The removal begins within the work.
whole_run : Run is_idle exit_b (init_b true).1 9 last
unfolding init_b exit_b
whole_run =
    let within = step (step (step (step (step start takes) round) exits) printed) round in
    step (step (step (step within round) ends) (destroyed refl)) removed

removed-done_example :
    (9 ≤ 9)
    × (last.module_is ≢ gone → (s' : State) × Step is_idle exit_b last s')
    × (last.module_is ≡ gone → (last.work ≡ idle) × (last.lines ≡ 3))
removed-done_example = removed-done is_idle-IsDestroy whole_run
