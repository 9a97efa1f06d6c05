-- ===== src/Spthread/Tests.antt =====
-- The theorem on spthread.c from its start.
use linux_summary.Base.{inr, ◌≡◌, refl, true, false, none, some, List, [], ◌∷◌, arith, replicate}
use linux_summary.Spthread.{blank_arg, start, Key, create, kill, quit, other, main_loop}
use linux_summary.Spthread.Threads.{Event, creates, runs, World, at_start, looping, enter, run}
use linux_summary.Spthread.Threads.Order.{IsWorld, run-IsWorld}
use linux_summary.Spthread.Threads.Scripts.{Script, Fair, script_events, script-main_loop}
use linux_summary.Spthread.Stack.{IsValid, threads, stack_run, main_loop-stack_run}

start-IsValid : IsValid start
start-IsValid = record { slots = refl; bounded = omega arith; all_run = tt }

abbrev keys : List Key
keys = create (some 11) ∷ create (some 12) ∷ other ∷ kill true ∷ create none ∷ quit ∷ kill true ∷ []

-- The second thread is gone, the first is still there.
main_loop-keys : threads (main_loop keys start).0 ≡ record { running = true; tid = 11 } ∷ []
unfolding main_loop
main_loop-keys = refl

main_loop-stack_run_example :
    IsValid (main_loop keys start).0
    × (threads (main_loop keys start).0 ≡ stack_run keys (threads start))
main_loop-stack_run_example =
    main_loop-stack_run keys start start-IsValid (tt, (tt, (tt, (refl, (tt, (tt, (refl, tt)))))))

-- A thread is made and starts.
abbrev begun : List Event
begun = creates (some 5) ∷ runs 0 ∷ []

abbrev in_loop : World
in_loop = record {
  pool = record {
    current_nums = 1;
    args = record { running = true; tid = 5 } ∷ replicate 9 blank_arg;
  };
  live = record { tid = 5; phase = looping } ∷ [];
  joining = false;
  lines = enter 5 ∷ [];
}

begun-run : run begun at_start ≡ some in_loop
unfolding run
begun-run = refl

run-IsWorld_example : IsWorld in_loop
run-IsWorld_example = run-IsWorld begun in_loop begun-run

abbrev script : Script
script = (create (some 5), 0 ∷ []) ∷ (create (some 6), []) ∷ (kill true, 1 ∷ 0 ∷ 1 ∷ []) ∷ []

script-Fair : Fair script start
unfolding Fair
script-Fair = (refl, inr (omega arith), tt)

script-main_loop_example :
    (w : World) × (run (script_events script start) at_start ≡ some w)
    × (w.pool ≡ (main_loop (create (some 5) ∷ create (some 6) ∷ kill true ∷ []) start).0)
    × (w.joining ≡ false)
script-main_loop_example = script-main_loop script script-Fair
