-- ===== src/Spthread.antt =====
-- The thread manager src/linux/pthread/simple_pthread/spthread.c: its array of thread arguments, and
-- what each key does.
pub mod Stack
pub mod Threads
mod Tests
use linux_summary.Base.{
  ℕ, zero, suc, ◌+◌, ◌-◌, Bool, true, false, Option, none, some, List, [], ◌∷◌, leb, if◌then◌else◌,
  set, replicate,
}

abbrev pub max_thread : ℕ
max_thread = 10

-- `thread_arg`
pub record ThreadArg : Type 0 where
  pub running : Bool
  pub tid : ℕ

pub record Pool : Type 0 where
  pub current_nums : ℕ
  pub args : List ThreadArg

abbrev pub blank_arg : ThreadArg
blank_arg = record { running = false; tid = 0 }

abbrev pub start : Pool
start = record { current_nums = 0; args = replicate max_thread blank_arg }

-- A key, with what `pthread_create` gives (`none` for an error) or whether `pthread_join` succeeds.
pub data Key : Type 0 where
  create : Option ℕ → Key
  kill : Bool → Key
  quit other : Key

-- What the threads see: one is started with a slot, or one is told to stop and waited for.
pub data Act : Type 0 where
  started : (tid slot : ℕ) → Act
  joined : (slot : ℕ) → Act
  refused : Act

-- `args[i].running = ...`
pub set_running : Bool → List ThreadArg → ℕ → List ThreadArg
set_running r [] i = []
set_running r (a ∷ args) zero = record a { running = r } ∷ args
set_running r (a ∷ args) (suc i) = a ∷ set_running r args i

-- `case 'c'`: the slot is marked as running before the thread is made.
unfoldable pub create_thread : Option ℕ → Pool → Pool × Act
unfolding set_running
create_thread none p =
    if leb max_thread p.current_nums
    then (p, refused)
    else (record p { args = set_running true p.args p.current_nums }, refused)
create_thread (some t) p = if leb max_thread p.current_nums then (p, refused) else (
  record p {
    args = set p.args p.current_nums (record { running = true; tid = t });
    current_nums = p.current_nums + 1;
  },
  started t p.current_nums,
)

-- `case 'k'`: the thread of the last slot is told to stop and waited for.
unfoldable pub kill_thread : Bool → Pool → Pool × Act
unfolding set_running
kill_thread joins p =
    if leb p.current_nums 0
    then (p, refused)
    else (let stopped = record p { args = set_running false p.args (p.current_nums - 1) } in
        if joins
        then (record stopped { current_nums = p.current_nums - 1 }, joined (p.current_nums - 1))
        else (stopped, refused))

-- One round of the loop; `none` where it leaves the loop.
unfoldable pub step : Key → Pool → Option (Pool × Act)
unfolding create_thread kill_thread
step (create t) p = some (create_thread t p)
step (kill joins) p = some (kill_thread joins p)
step quit p = none
step other p = some (p, refused)

-- The loop over the keys to come: what is left at its end, and all the acts.
unfoldable pub main_loop : List Key → Pool → Pool × List Act
unfolding step
main_loop [] p = (p, [])
main_loop (key ∷ keys) p = elim (step key p) [
  | none ↦ (p, [])
  | some (p', act) ↦ (let (q, acts) = main_loop keys p' in (q, act ∷ acts))
]
