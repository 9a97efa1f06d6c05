-- ===== src/WorkQueue.antt =====
-- The modules src/kernel/workqueue/work_queue_a/work_queue_a.c and work_queue_b/work_queue_b.c: work
-- that a thread of the kernel does while the module may be removed.
pub mod Order
mod Tests
use linux_summary.Base.{ℕ, zero, suc, ◌≡◌, Bool, true, false, if◌then◌else◌, List, [], ◌∷◌}
use linux_summary.Base.Int.{ℤ, pos, negsuc}

-- `work`: not queued, queued, or in `work_handler` with a number of rounds to go.
pub data Work : Type 0 where
  idle queued : Work
  running : (rounds : ℕ) → Work

-- What the `workqueue_exit` of a module does.
pub data ExitCall : Type 0 where
  prints destroys_queue : ExitCall

-- The module: loaded, in its `workqueue_exit` with calls to go, or gone.
pub data Module : Type 0 where
  loaded gone : Module
  exiting : (calls : List ExitCall) → Module

-- The module, its work, and how many lines `work_handler` has printed.
pub record State : Type 0 where
  pub module_is : Module
  pub work : Work
  pub lines : ℕ

-- The rounds of the loop of `work_handler`.
abbrev pub rounds : ℕ
rounds = 3

-- `workqueue_init` of work_queue_a.c: its result and the state behind it.
unfoldable pub init_a : ℤ × State
init_a = (pos 0, record { module_is = loaded; work = queued; lines = 0 })

-- `workqueue_exit` of work_queue_a.c.
unfoldable pub exit_a : List ExitCall
exit_a = prints ∷ []

-- `workqueue_init` of work_queue_b.c, with whether `create_singlethread_workqueue` gives a queue.
unfoldable pub init_b : (creates : Bool) → ℤ × State
init_b creates =
    if creates
    then (pos 0, record { module_is = loaded; work = queued; lines = 0 })
    else (negsuc 0, record { module_is = gone; work = idle; lines = 0 })

-- `workqueue_exit` of work_queue_b.c.
unfoldable pub exit_b : List ExitCall
exit_b = prints ∷ destroys_queue ∷ []

-- What the kernel says of `destroy_workqueue`, by the work at which it may come back: it comes
-- back only when what was queued has been done, and it does come back then.
pub record IsDestroy (comes_back : Work → Bool) : Type 0 where
  pub waits : (w : Work) → comes_back w ≡ true → w ≡ idle
  pub returns : comes_back idle ≡ true

-- A step of the kernel's thread, which takes the work, does a round of `work_handler` or ends it;
-- or a step of the removal, which may begin at any time, makes the calls of `workqueue_exit` one
-- by one, and then takes the module away. `calls` are those of the module's `workqueue_exit`.
pub data Step (comes_back : Work → Bool) (calls : List ExitCall) : State → State → Type 0 where
  takes :
      {m : Module} {lines : ℕ}
      → Step comes_back calls
          (record { module_is = m; work = queued; lines = lines })
          (record { module_is = m; work = running rounds; lines = lines })
  round :
      {m : Module} {n lines : ℕ}
      → Step comes_back calls
          (record { module_is = m; work = running (suc n); lines = lines })
          (record { module_is = m; work = running n; lines = suc lines })
  ends :
      {m : Module} {lines : ℕ}
      → Step comes_back calls
          (record { module_is = m; work = running 0; lines = lines })
          (record { module_is = m; work = idle; lines = lines })
  exits :
      {work : Work} {lines : ℕ}
      → Step comes_back calls
          (record { module_is = loaded; work = work; lines = lines })
          (record { module_is = exiting calls; work = work; lines = lines })
  printed :
      {rest : List ExitCall} {work : Work} {lines : ℕ}
      → Step comes_back calls
          (record { module_is = exiting (prints ∷ rest); work = work; lines = lines })
          (record { module_is = exiting rest; work = work; lines = lines })
  destroyed :
      {rest : List ExitCall} {work : Work} {lines : ℕ}
      → comes_back work ≡ true
      → Step comes_back calls
          (record { module_is = exiting (destroys_queue ∷ rest); work = work; lines = lines })
          (record { module_is = exiting rest; work = work; lines = lines })
  removed :
      {work : Work} {lines : ℕ}
      → Step comes_back calls
          (record { module_is = exiting []; work = work; lines = lines })
          (record { module_is = gone; work = work; lines = lines })

-- A run of steps, with their number.
pub data Run (comes_back : Work → Bool) (calls : List ExitCall) (s : State)
    : ℕ → State → Type 0 where
  start : Run comes_back calls s 0 s
  step :
      {n : ℕ} {s' s'' : State}
      → Run comes_back calls s n s'
      → Step comes_back calls s' s''
      → Run comes_back calls s (suc n) s''
