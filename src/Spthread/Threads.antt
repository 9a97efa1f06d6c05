-- ===== src/Spthread/Threads.antt =====
-- The threads of spthread.c beside the main thread: `thread_func`, and the kill key as what it is
-- made of, the mark in the array and the wait for the thread.
pub mod Marks
pub mod Lines
pub mod Order
pub mod Waits
pub mod Scripts
use linux_summary.Base.{
  ℕ, zero, suc, ◌+◌, ◌-◌, ◌≡◌, Bool, true, false, Option, none, some, List, [], ◌∷◌, ◌++◌, leb,
  ◌==◌, if◌then◌else◌,
}
use linux_summary.Spthread.{
  ThreadArg, Pool, start, Key, create, kill, quit, other, create_thread, set_running, max_thread,
}

-- Where a thread stands in `thread_func`: before its first line, in its loop, or behind its last.
pub data Phase : Type 0 where
  fresh looping finished : Phase

pub record Thread : Type 0 where
  pub tid : ℕ
  pub phase : Phase

pub data Line : Type 0 where
  enter exit : (tid : ℕ) → Line

-- A turn of a thread, which reads the mark in its slot.
unfoldable pub turn : (running : Bool) → ℕ → Phase → Thread × List Line
turn running t fresh = (record { tid = t; phase = looping }, enter t ∷ [])
turn true t looping = (record { tid = t; phase = looping }, [])
turn false t looping = (record { tid = t; phase = finished }, exit t ∷ [])
turn running t finished = (record { tid = t; phase = finished }, [])

-- A turn of the thread with the slot `i`: the threads stand in the order of their slots.
unfoldable pub run_thread : ℕ → List ThreadArg → List Thread → List Thread × List Line
unfolding turn
run_thread i args [] = ([], [])
run_thread i [] (t ∷ ts) = (t ∷ ts, [])
run_thread zero (a ∷ args) (t ∷ ts) =
    let (t', lines) = turn a.running t.tid t.phase in (t' ∷ ts, lines)
run_thread (suc i) (a ∷ args) (t ∷ ts) = let (ts', lines) = run_thread i args ts in (t ∷ ts', lines)

-- The main thread's array, the threads that it has not joined, whether it is in `pthread_join`, and
-- what the threads have printed.
pub record World : Type 0 where
  pub pool : Pool
  pub live : List Thread
  pub joining : Bool
  pub lines : List Line

abbrev pub at_start : World
at_start = record { pool = start; live = []; joining = false; lines = [] }

-- What happens next: a key, which the main thread reads where it does not wait; a turn of a
-- thread; or the end of `pthread_join`, which a thread that is there and not joined does not
-- refuse.
pub data Event : Type 0 where
  creates : Option ℕ → Event
  kills : Event
  runs : (slot : ℕ) → Event
  joins : Event

abbrev pub pop : List Thread → List Thread
pop [] = []
pop (t ∷ []) = []
pop (t ∷ u ∷ ts) = t ∷ pop (u ∷ ts)

abbrev pub is_finished : Phase → Bool
is_finished fresh = false
is_finished looping = false
is_finished finished = true

-- Whether the thread that was made last is behind its last line.
abbrev pub last_finished : List Thread → Bool
last_finished [] = false
last_finished (t ∷ []) = is_finished t.phase
last_finished (t ∷ u ∷ ts) = last_finished (u ∷ ts)

-- The thread that `pthread_create` has made; none where the array is full.
abbrev pub added : Option ℕ → Pool → List Thread → List Thread
added none p live = live
added (some t) p live =
    if leb max_thread p.current_nums then live else live ++ record { tid = t; phase = fresh } ∷ []

-- `none` where the event cannot come: a key while the main thread waits, or the end of a wait for
-- a thread that goes on.
unfoldable pub step : Event → World → Option World
unfolding run_thread set_running create_thread
step (creates t) w =
    if w.joining
    then none
    else some (record w { pool = (create_thread t w.pool).0; live = added t w.pool w.live })
step kills w =
    if w.joining
    then none
    else (if leb w.pool.current_nums 0
        then some w
        else some (record w {
          pool = record w.pool { args = set_running false w.pool.args (w.pool.current_nums - 1) };
          joining = true;
        }))
step (runs i) w =
    let (live', printed) = run_thread i w.pool.args w.live in
    some (record w { live = live'; lines = w.lines ++ printed })
step joins w =
    if w.joining
    then (if last_finished w.live
        then some (record w {
          pool = record w.pool { current_nums = w.pool.current_nums - 1 };
          live = pop w.live;
          joining = false;
        })
        else none)
    else none

unfoldable pub run : List Event → World → Option World
unfolding step
run [] w = some w
run (e ∷ events) w = elim (step e w) [ none ↦ none | some w' ↦ run events w' ]
