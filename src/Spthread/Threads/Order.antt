-- ===== src/Spthread/Threads/Order.antt =====
-- What each event keeps of the threads of spthread.c beside the main thread.

use mathlib.Core.Path.{subst}
use linux_summary.Base.{
  ℕ, ◌+◌, ◌-◌, ◌≤◌, ◌<◌, ◌≡◌, refl, ◌∙◌, Bool, true, false, Option, none, some, List, [], ◌∷◌, ◌++◌,
  leb, length, set, length-set, length-append, arith,
}
use linux_summary.Spthread.{ThreadArg, create_thread, set_running}
use linux_summary.Spthread.Stack.{length-set_running}
use linux_summary.Spthread.Threads.{
  fresh, Thread, run_thread, pop, last_finished, World, at_start, Event, creates, kills, runs,
  joins, step, run,
}
use linux_summary.Spthread.Threads.Lines.{
  enters, exits, loopers, enters-append, exits-append, loopers-append, run_thread-lines,
  loopers-pop,
}
use linux_summary.Spthread.Threads.Marks.{
  Marks, run_thread-Runs, run_thread-Stops, Runs-set_running, Runs-create, Stops-set_running,
  Runs-pop,
}

pub record IsWorld (w : World) : Type 0 where
  pub slots : length w.pool.args ≡ 10
  pub bounded : w.pool.current_nums ≤ 10
  pub same : length w.live ≡ w.pool.current_nums
  pub marks : Marks w.joining w.pool.args w.live
  pub paired : (t : ℕ) → enters t w.lines ≡ exits t w.lines + loopers t w.live

abbrev pub Ensures : Option World → Type 0
Ensures none = Unit
Ensures (some w) = IsWorld w

module _ (w : World) (v : IsWorld w) where
  Marks-at : (j : Bool) → w.joining ≡ j → Marks j w.pool.args w.live
  Marks-at j e = rw (← e) v.marks

  free : (e : w.joining ≡ false) → IsWorld (record w { joining = false })
  free e = record {
    slots = v.slots;
    bounded = v.bounded;
    same = v.same;
    marks = Marks-at false e;
    paired = v.paired;
  }

  marked :
      w.joining ≡ false
      → IsWorld (record w {
        pool = record w.pool { args = set_running true w.pool.args w.pool.current_nums };
        joining = false;
      })
  marked e = record {
    slots = length-set_running true w.pool.args w.pool.current_nums ∙ v.slots;
    bounded = v.bounded;
    same = v.same;
    marks = rw (← v.same) (Runs-set_running true w.pool.args w.live (Marks-at false e));
    paired = v.paired;
  }

  made :
      (t : ℕ)
      → w.joining ≡ false
      → leb 10 w.pool.current_nums ≡ false
      → IsWorld (record w {
        pool = record w.pool {
          args = set w.pool.args w.pool.current_nums (record { running = true; tid = t });
          current_nums = w.pool.current_nums + 1;
        };
        live = w.live ++ record { tid = t; phase = fresh } ∷ [];
        joining = false;
      })
  made t e room =
      let thread : Thread = record { tid = t; phase = fresh } in
      let arg : ThreadArg = record { running = true; tid = t } in
      let below : w.pool.current_nums < 10 = ground arith in
      record {
        slots = length-set w.pool.args w.pool.current_nums arg ∙ v.slots;
        bounded = omega arith;
        same = omega (arith, length-append w.live (thread ∷ []), v.same);
        marks =
            rw (← v.same) (
              Runs-create t w.pool.args w.live (Marks-at false e) (omega (arith, v.same, v.slots)));
        paired = λ u. omega (arith, v.paired u, loopers-append u w.live (thread ∷ []));
      }

  stopped :
      w.joining ≡ false
      → leb w.pool.current_nums 0 ≡ false
      → IsWorld (record w {
        pool = record w.pool { args = set_running false w.pool.args (w.pool.current_nums - 1) };
        joining = true;
      })
  stopped e some_left = record {
    slots = length-set_running false w.pool.args (w.pool.current_nums - 1) ∙ v.slots;
    bounded = v.bounded;
    same = v.same;
    marks =
        Stops-set_running w.pool.args w.live (w.pool.current_nums - 1) (Marks-at false e)
          (ground (arith, v.same));
    paired = v.paired;
  }

  joined :
      w.joining ≡ true
      → last_finished w.live ≡ true
      → IsWorld (record w {
        pool = record w.pool { current_nums = w.pool.current_nums - 1 };
        live = pop w.live;
        joining = false;
      })
  joined e done =
      let (all_run, one_less) = Runs-pop w.pool.args w.live (Marks-at true e) in
      record {
        slots = v.slots;
        bounded = omega (arith, v.bounded);
        same = omega (arith, one_less, v.same);
        marks = all_run;
        paired = λ u. omega (arith, v.paired u, loopers-pop u w.live done);
      }

  pub turned :
      (i : ℕ)
      → let (live', printed) = run_thread i w.pool.args w.live in
        IsWorld (record w { live = live'; lines = w.lines ++ printed })
  turned i =
      let (live', printed) = run_thread i w.pool.args w.live in
      let (m, n) = go w.joining v.marks in
      record {
        slots = v.slots;
        bounded = v.bounded;
        same = n ∙ v.same;
        marks = m;
        paired = λ u. omega (
          arith,
          v.paired u,
          enters-append u w.lines printed,
          exits-append u w.lines printed,
          run_thread-lines u i w.pool.args w.live,
        );
      }
    where
      go :
          (j : Bool)
          → Marks j w.pool.args w.live
          → Marks j w.pool.args (run_thread i w.pool.args w.live).0
            × (length (run_thread i w.pool.args w.live).0 ≡ length w.live)
      go false m = run_thread-Runs i w.pool.args w.live m
      go true m = let (s, n, fewer) = run_thread-Stops i w.pool.args w.live m in (s, n)

creates-Ensures :
    (t : Option ℕ) (w : World)
    → IsWorld w
    → (j : Bool) → w.joining ≡ j
    → (full : Bool) → leb 10 w.pool.current_nums ≡ full
    → Ensures (step (creates t) w)
unfolding step create_thread
creates-Ensures t w v true e full f = rw (step, e) tt
creates-Ensures none w v false e true f = rw (step, e, create_thread, f) (free w v e)
creates-Ensures none w v false e false f = rw (step, e, create_thread, f) (marked w v e)
creates-Ensures (some t) w v false e true f = rw (step, e, create_thread, f) (free w v e)
creates-Ensures (some t) w v false e false f = rw (step, e, create_thread, f) (made w v t e f)

kills-Ensures :
    (w : World)
    → IsWorld w
    → (j : Bool) → w.joining ≡ j
    → (empty : Bool) → leb w.pool.current_nums 0 ≡ empty
    → Ensures (step kills w)
unfolding step
kills-Ensures w v true e empty f = rw (step, e) tt
kills-Ensures w v false e true f = rw (step, e, f) (free w v e)
kills-Ensures w v false e false f = rw (step, e, f) (stopped w v e f)

joins-Ensures :
    (w : World)
    → IsWorld w
    → (j : Bool) → w.joining ≡ j
    → (done : Bool) → last_finished w.live ≡ done
    → Ensures (step joins w)
unfolding step
joins-Ensures w v false e done f = rw (step, e) tt
joins-Ensures w v true e false f = rw (step, e, f) tt
joins-Ensures w v true e true f = rw (step, e, f) (joined w v e f)

step-Ensures : (e : Event) (w : World) → IsWorld w → Ensures (step e w)
step-Ensures (creates t) w v =
    creates-Ensures t w v w.joining refl (leb 10 w.pool.current_nums) refl
step-Ensures kills w v = kills-Ensures w v w.joining refl (leb w.pool.current_nums 0) refl
step-Ensures (runs i) w v = unfold step in turned w v i
step-Ensures joins w v = joins-Ensures w v w.joining refl (last_finished w.live) refl

continue :
    (r : Option World) (f : World → Option World)
    → Ensures r
    → ((w : World) → IsWorld w → Ensures (f w))
    → Ensures (elim r [ none ↦ none | some w' ↦ f w' ])
continue none f h k = tt
continue (some w) f h k = k w h

pub run-Ensures : (events : List Event) (w : World) → IsWorld w → Ensures (run events w)
unfolding run
run-Ensures [] w v = v
run-Ensures (e ∷ events) w v =
    continue (step e w) (run events) (step-Ensures e w v) (run-Ensures events)

pub at_start-IsWorld : IsWorld at_start
at_start-IsWorld = record {
  slots = refl;
  bounded = omega arith;
  same = refl;
  marks = tt;
  paired = λ t. refl;
}

-- Whatever the keys are, and however the turns of the threads and the ends of the waits come in
-- between: the array has a slot for each thread that is not joined, of ten at most. Each of them
-- is marked as running and has not printed its last line; but while the main thread waits, the
-- last of them is told to stop. For each name, as many threads have printed their first line as
-- have printed their last or are in their loops.
pub run-IsWorld : (events : List Event) (w : World) → run events at_start ≡ some w → IsWorld w
run-IsWorld events w e = subst Ensures e (run-Ensures events at_start at_start-IsWorld)
