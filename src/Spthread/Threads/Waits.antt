-- ===== src/Spthread/Threads/Waits.antt =====
-- The wait of spthread.c's main thread for the thread that it has told to stop.
use mathlib.Core.Path.{subst}
use linux_summary.Base.{
  ℕ, suc, ◌+◌, ◌-◌, ◌≤◌, ◌≡◌, refl, ap, ◌∙◌, true, false, Option, none, some, List, [], ◌∷◌, ◌++◌,
  ◌==◌, leb, if◌then◌else◌, length, map, arith,
}
use linux_summary.Spthread.{Pool, kill_thread, set_running}
use linux_summary.Spthread.Threads.{
  run_thread, last_finished, World, at_start, Event, kills, runs, joins, step, run, pop,
}
use linux_summary.Spthread.Threads.Marks.{
  Marks, Runs, Stops, run_thread-Stops, left, left-finished, left-le, Stops-set_running,
}
use linux_summary.Spthread.Threads.Order.{IsWorld, run-IsWorld}

-- How many of the turns are those of one slot.
abbrev pub turns_of : ℕ → List ℕ → ℕ
turns_of n [] = 0
turns_of n (i ∷ slots) = (if suc i == n then 1 else 0) + turns_of n slots

-- While the main thread waits, turns keep its array, and each of the last thread's brings that
-- one nearer to its end.
waits :
    (slots : List ℕ) (rest : List Event) (w : World)
    → w.joining ≡ true
    → Stops w.pool.args w.live
    → left w.live ≤ turns_of (length w.live) slots
    → (w' : World) × (run (map runs slots ++ rest) w ≡ run rest w')
      × (w'.pool ≡ w.pool)
      × (w'.joining ≡ true)
      × (last_finished w'.live ≡ true)
unfolding run step
waits [] rest w j s enough =
    (w, refl, refl, j, left-finished w.pool.args w.live s (omega (arith, enough)))
waits (i ∷ slots) rest w j s enough =
    let (live', printed) = run_thread i w.pool.args w.live in
    let (s', same, fewer) = run_thread-Stops i w.pool.args w.live s in
    waits slots rest (record w { live = live'; lines = w.lines ++ printed }) j s'
      (rw same (omega (arith, fewer, enough)))

run-joins :
    (w : World)
    → w.joining ≡ true
    → last_finished w.live ≡ true
    → run (joins ∷ []) w
      ≡ some (record w {
        pool = record w.pool { current_nums = w.pool.current_nums - 1 };
        live = pop w.live;
        joining = false;
      })
unfolding run step
run-joins w waiting done = ground arith

abbrev pub told : World → World
told w = record w {
  pool = record w.pool { args = set_running false w.pool.args (w.pool.current_nums - 1) };
  joining = true;
}

run-kills :
    (w : World) (events : List Event)
    → w.joining ≡ false
    → leb w.pool.current_nums 0 ≡ false
    → run (kills ∷ events) w ≡ run events (told w)
unfolding run
run-kills w events reads some_left = go (step kills w) (unfold step in ground arith)
  where
    go :
        (r : Option World)
        → r ≡ some (told w)
        → elim r as (λ _. Option World) [ none ↦ none | some w' ↦ run events w' ]
          ≡ run events (told w)
    go r e = rw e refl

waits-joins :
    (slots : List ℕ) (w : World)
    → w.joining ≡ true
    → Stops w.pool.args w.live
    → left w.live ≤ turns_of (length w.live) slots
    → (w' : World) × (run (map runs slots ++ joins ∷ []) w ≡ some w')
      × (w'.pool ≡ record w.pool { current_nums = w.pool.current_nums - 1 })
      × (w'.joining ≡ false)
waits-joins slots w j s enough =
    let (v, ran, pool, waiting, done) = waits slots (joins ∷ []) w j s enough in
    (
      record v {
        pool = record v.pool { current_nums = v.pool.current_nums - 1 };
        live = pop v.live;
        joining = false;
      },
      ran ∙ run-joins v waiting done,
      ap (λ (p : Pool). record p { current_nums = p.current_nums - 1 }) pool,
      refl,
    )

-- From a world that is as it should be, with a thread that is there.
pub kills-joins :
    (w : World) (slots : List ℕ)
    → IsWorld w
    → w.joining ≡ false
    → leb w.pool.current_nums 0 ≡ false
    → 2 ≤ turns_of w.pool.current_nums slots
    → (w' : World) × (run (kills ∷ map runs slots ++ joins ∷ []) w ≡ some w')
      × (w'.pool ≡ (kill_thread true w.pool).0)
      × (w'.joining ≡ false)
unfolding kill_thread
kills-joins w slots v reads some_left enough =
    let all_run : Runs w.pool.args w.live = subst (λ j. Marks j w.pool.args w.live) reads v.marks in
    let stops =
      Stops-set_running w.pool.args w.live (w.pool.current_nums - 1) all_run
        (ground (arith, v.same)) in
    let turns : left w.live ≤ turns_of (length w.live) slots =
      rw (v.same) (omega (arith, left-le w.live, enough)) in
    let (w', ran, pool, free) = waits-joins slots (told w) refl stops turns in
    let marks = run-kills w (map runs slots ++ joins ∷ []) reads some_left in
    (w', marks ∙ ran, pool ∙ rw some_left refl, free)

-- In every reached state in which the main thread reads keys and there is a thread: behind the
-- kill key, the wait comes to its end as soon as the thread that is told to stop has had two
-- turns, however many turns the others have in between; and the array is then what `kill_thread`
-- makes of it in one step.
pub kill-joins :
    (events : List Event) (w : World) (slots : List ℕ)
    → run events at_start ≡ some w
    → w.joining ≡ false
    → leb w.pool.current_nums 0 ≡ false
    → 2 ≤ turns_of w.pool.current_nums slots
    → (w' : World) × (run (kills ∷ map runs slots ++ joins ∷ []) w ≡ some w')
      × (w'.pool ≡ (kill_thread true w.pool).0)
      × (w'.joining ≡ false)
kill-joins events w slots reached = kills-joins w slots (run-IsWorld events w reached)
