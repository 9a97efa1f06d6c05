-- ===== src/WorkQueue/Order.antt =====
-- The module work_queue_b.c: its work is done before it is removed.
use linux_summary.Base.{
  ℕ, zero, suc, ◌+◌, ◌≤◌, ◌≡◌, ◌≢◌, refl, ap, Bool, true, false, arith, List, [], ◌∷◌, length,
}
use linux_summary.WorkQueue.{
  Work, idle, queued, running, ExitCall, prints, destroys_queue, Module, loaded, gone, exiting,
  State, rounds, init_b, exit_b, IsDestroy, Step, takes, round, ends, exits, printed, destroyed,
  removed, Run, start, step,
}

-- The lines that are still to be printed, and the steps that the work and the removal still take.
abbrev pub to_print : Work → ℕ
to_print idle = 0
to_print queued = rounds
to_print (running n) = n

abbrev pub steps_left : Work → ℕ
steps_left idle = 0
steps_left queued = rounds + 2
steps_left (running n) = n + 1

abbrev pub removal_left : Module → ℕ
removal_left loaded = 4
removal_left (exiting calls) = 1 + length calls
removal_left gone = 0

-- The call that waits for the work is behind.
abbrev pub waited : List ExitCall → Bool
waited [] = true
waited (prints ∷ calls) = waited calls
waited (destroys_queue ∷ calls) = false

abbrev pub past_waiting : Module → Bool
past_waiting loaded = false
past_waiting (exiting calls) = waited calls
past_waiting gone = true

pub record IsOrdered (n : ℕ) (s : State) : Type 0 where
  pub counted : s.lines + to_print s.work ≡ rounds
  pub bounded : n + steps_left s.work + removal_left s.module_is ≡ 9
  pub done_first : past_waiting s.module_is ≡ true → s.work ≡ idle

module _ {comes_back : Work → Bool} (is : IsDestroy comes_back) where
  step-IsOrdered :
      {n : ℕ} {s s' : State} → Step comes_back exit_b s s' → IsOrdered n s → IsOrdered (suc n) s'
  unfolding exit_b
  step-IsOrdered takes o = record {
    counted = o.counted;
    bounded = omega (arith, o.bounded);
    done_first = λ past. ground (arith, o.done_first past);
  }
  step-IsOrdered round o = record {
    counted = omega (arith, o.counted);
    bounded = omega (arith, o.bounded);
    done_first = λ past. ground (arith, o.done_first past);
  }
  step-IsOrdered ends o = record {
    counted = o.counted;
    bounded = omega (arith, o.bounded);
    done_first = λ past. refl;
  }
  step-IsOrdered exits o = record {
    counted = o.counted;
    bounded = omega (arith, o.bounded);
    done_first = λ past. absurd (ground (arith, past));
  }
  step-IsOrdered printed o = record {
    counted = o.counted;
    bounded = omega (arith, o.bounded);
    done_first = λ past. o.done_first past;
  }
  step-IsOrdered (destroyed {work = work} back) o = record {
    counted = o.counted;
    bounded = omega (arith, o.bounded);
    done_first = λ past. is.waits work back;
  }
  step-IsOrdered removed o = record {
    counted = o.counted;
    bounded = omega (arith, o.bounded);
    done_first = λ past. o.done_first refl;
  }

  run-IsOrdered : {n : ℕ} {s : State} → Run comes_back exit_b (init_b true).1 n s → IsOrdered n s
  unfolding init_b
  run-IsOrdered start = record {
    counted = refl;
    bounded = refl;
    done_first = λ past. absurd (ground (arith, past));
  }
  run-IsOrdered (step before last) = step-IsOrdered last (run-IsOrdered before)

  -- While the module is there, its work or its removal goes on.
  next_step :
      (m : Module) (w : Work) (lines : ℕ)
      → m ≢ gone
      → (s' : State) × Step comes_back exit_b (record { module_is = m; work = w; lines = lines }) s'
  next_step m queued lines there =
      (record { module_is = m; work = running rounds; lines = lines }, takes)
  next_step m (running zero) lines there =
      (record { module_is = m; work = idle; lines = lines }, ends)
  next_step m (running (suc n)) lines there =
      (record { module_is = m; work = running n; lines = suc lines }, round)
  next_step loaded idle lines there =
      (record { module_is = exiting exit_b; work = idle; lines = lines }, exits)
  next_step gone idle lines there = absurd (there refl)
  next_step (exiting []) idle lines there =
      (record { module_is = gone; work = idle; lines = lines }, removed)
  next_step (exiting (prints ∷ calls)) idle lines there =
      (record { module_is = exiting calls; work = idle; lines = lines }, printed)
  next_step (exiting (destroys_queue ∷ calls)) idle lines there =
      (record { module_is = exiting calls; work = idle; lines = lines }, destroyed is.returns)

-- For a `destroy_workqueue` that comes back when the work is done and not before, and whenever
-- the removal of work_queue_b.c begins, before its work, within it or behind it: a run has nine
-- steps at most, and goes on until the module is gone. When it is gone, the work has ended and
-- has printed its three lines, so that nothing of the module runs behind its removal.
pub removed-done :
    {comes_back : Work → Bool} {n : ℕ} {s : State}
    → IsDestroy comes_back
    → Run comes_back exit_b (init_b true).1 n s
    → (n ≤ 9)
      × (s.module_is ≢ gone → (s' : State) × Step comes_back exit_b s s')
      × (s.module_is ≡ gone → (s.work ≡ idle) × (s.lines ≡ 3))
removed-done {s = s} is run =
    let o = run-IsOrdered is run in
    (
      omega (arith, o.bounded),
      next_step is s.module_is s.work s.lines,
      λ is_gone.
          let ended = o.done_first (ap past_waiting is_gone) in
          (ended, omega (arith, o.counted, ap to_print ended)),
    )
