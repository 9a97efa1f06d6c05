-- ===== src/Spthread/Threads/Scripts.antt =====
-- The loop of spthread.c, key by key, against its run beside the threads.
use mathlib.Core.Path.{subst}
use linux_summary.Base.{
  ℕ, ◌≤◌, ◌≡◌, refl, ap, sym, ◌⊎◌, Bool, true, false, Option, none, some, List, [], ◌∷◌, ◌++◌, leb,
  if◌then◌else◌, map, arith, inl, inr,
}
use linux_summary.Spthread.{
  Pool, Key, create, kill, quit, other, create_thread, kill_thread, main_loop, start,
}
use linux_summary.Spthread.Threads.{
  run_thread, added, World, at_start, Event, creates, kills, runs, joins, step, run,
}
use linux_summary.Spthread.Threads.Order.{IsWorld, Ensures, run-Ensures, at_start-IsWorld, turned}
use linux_summary.Spthread.Threads.Waits.{turns_of, kills-joins}

-- A key, with the turns that the threads have behind it, up to the next one.
abbrev pub Script : Type 0
Script = List (Key × List ℕ)

abbrev pub keys_of : Script → List Key
keys_of [] = []
keys_of ((key, slots) ∷ more) = key ∷ keys_of more

-- What a key and the turns behind it come to. The main thread waits where it kills a thread, and
-- the wait is over when the turns are.
abbrev pub events_of : Key → List ℕ → Pool → List Event
events_of (create t) slots p = creates t ∷ map runs slots
events_of (kill b) slots p =
    if leb p.current_nums 0 then kills ∷ map runs slots else kills ∷ map runs slots ++ joins ∷ []
events_of quit slots p = []
events_of other slots p = map runs slots

unfoldable pub script_events : Script → Pool → List Event
unfolding create_thread kill_thread
script_events [] p = []
script_events ((create t, slots) ∷ more) p =
    events_of (create t) slots p ++ script_events more (create_thread t p).0
script_events ((kill b, slots) ∷ more) p =
    events_of (kill b) slots p ++ script_events more (kill_thread b p).0
script_events ((quit, slots) ∷ more) p = []
script_events ((other, slots) ∷ more) p = events_of other slots p ++ script_events more p

-- Each thread that is told to stop has two turns, and its join succeeds.
unfoldable pub Fair : Script → Pool → Type 0
unfolding create_thread kill_thread
Fair [] p = Unit
Fair ((create t, slots) ∷ more) p = Fair more (create_thread t p).0
Fair ((kill b, slots) ∷ more) p =
    (b ≡ true)
    × ((leb p.current_nums 0 ≡ true) ⊎ (2 ≤ turns_of p.current_nums slots))
    × Fair more (kill_thread b p).0
Fair ((quit, slots) ∷ more) p = Unit
Fair ((other, slots) ∷ more) p = Fair more p

run-append : (xs ys : List Event) (w v : World) → run xs w ≡ some v → run (xs ++ ys) w ≡ run ys v
unfolding run
run-append [] ys w v e = ap (run ys) (ground arith)
run-append (x ∷ xs) ys w v e = go (step x w) e (run-append xs ys)
  where
    go :
        (r : Option World)
        → elim r as (λ _. Option World) [ none ↦ none | some w' ↦ run xs w' ] ≡ some v
        → ((w v : World) → run xs w ≡ some v → run (xs ++ ys) w ≡ run ys v)
        → elim r as (λ _. Option World) [ none ↦ none | some w' ↦ run (xs ++ ys) w' ] ≡ run ys v
    go none e ih = absurd (ground (arith, e))
    go (some w') e ih = ih w' v e

-- The main thread is at its keys, and the threads are as they should be.
abbrev Ready : Pool → Option World → Type 0
Ready p r = (v : World) × (r ≡ some v) × IsWorld v × (v.joining ≡ false) × (v.pool ≡ p)

turns-Ready :
    (slots : List ℕ) (w : World)
    → IsWorld w
    → w.joining ≡ false
    → Ready w.pool (run (map runs slots) w)
unfolding run step
turns-Ready [] w v j = (w, refl, v, j, refl)
turns-Ready (i ∷ slots) w v j =
    let (live', printed) = run_thread i w.pool.args w.live in
    turns-Ready slots (record w { live = live'; lines = w.lines ++ printed }) (turned w v i) j

create-Ready :
    (t : Option ℕ) (w : World)
    → IsWorld w
    → w.joining ≡ false
    → Ready (create_thread t w.pool).0 (run (creates t ∷ []) w)
create-Ready t w v j =
    let w' : World = record w { pool = (create_thread t w.pool).0; live = added t w.pool w.live } in
    let ran : run (creates t ∷ []) w ≡ some w' = unfold run step in ground arith in
    (w', ran, subst Ensures ran (run-Ensures (creates t ∷ []) w v), j, refl)

-- What is done behind what leaves the main thread at its keys.
then_Ready :
    (xs ys : List Event) (p q : Pool) (w : World)
    → Ready p (run xs w)
    → ((v : World) → IsWorld v → v.joining ≡ false → v.pool ≡ p → Ready q (run ys v))
    → Ready q (run (xs ++ ys) w)
then_Ready xs ys p q w (v, ran, iv, jv, pv) next =
    subst (Ready q) (sym (run-append xs ys w v ran)) (next v iv jv pv)

kill_thread-none : (p : Pool) → leb p.current_nums 0 ≡ true → (kill_thread true p).0 ≡ p
unfolding kill_thread
kill_thread-none p e = rw e refl

run-kills_none :
    (w : World) (events : List Event)
    → w.joining ≡ false
    → leb w.pool.current_nums 0 ≡ true
    → run (kills ∷ events) w ≡ run events w
unfolding run
run-kills_none w events j e = go (step kills w) (unfold step in ground arith)
  where
    go :
        (r : Option World)
        → r ≡ some w
        → elim r as (λ _. Option World) [ none ↦ none | some w' ↦ run events w' ] ≡ run events w
    go r e = rw e refl

kill-Ready :
    (slots : List ℕ) (w : World)
    → IsWorld w
    → w.joining ≡ false
    → (empty : Bool) → leb w.pool.current_nums 0 ≡ empty
    → (empty ≡ true) ⊎ (2 ≤ turns_of w.pool.current_nums slots)
    → Ready (kill_thread true w.pool).0 (run (events_of (kill true) slots w.pool) w)
kill-Ready slots w v j true e fair = rw e (
    subst (λ p. Ready p (run (kills ∷ map runs slots) w)) (sym (kill_thread-none w.pool e))
      (subst (Ready w.pool) (sym (run-kills_none w (map runs slots) j e))
        (turns-Ready slots w v j)))
kill-Ready slots w v j false e (inl full) = absurd (ground (arith, full))
kill-Ready slots w v j false e (inr enough) =
    let (w', ran, pool, free) = kills-joins w slots v j e enough in
    rw e (
      w',
      ran,
      subst Ensures ran (run-Ensures (kills ∷ map runs slots ++ joins ∷ []) w v),
      free,
      pool,
    )

script-Ready :
    (script : Script) (p : Pool) (w : World)
    → IsWorld w
    → w.joining ≡ false
    → w.pool ≡ p
    → Fair script p
    → Ready (main_loop (keys_of script) p).0 (run (script_events script p) w)
unfolding script_events Fair main_loop
script-Ready [] p w v j e fair = (unfold run in (w, refl, v, j, e))
script-Ready ((create t, slots) ∷ more) p w v j e fair =
    let p' = (create_thread t p).0 in
    let q = (main_loop (keys_of more) p').0 in
    then_Ready (creates t ∷ map runs slots) (script_events more p') p' q w
      (then_Ready (creates t ∷ []) (map runs slots) p' p' w
        (subst (λ p. Ready (create_thread t p).0 (run (creates t ∷ []) w)) e (create-Ready t w v j))
        (λ w' v' j' e'.
          subst (λ p. Ready p (run (map runs slots) w')) e' (turns-Ready slots w' v' j')))
      (λ w' v' j' e'. script-Ready more p' w' v' j' e' fair)
script-Ready ((kill false, slots) ∷ more) p w v j e (succeeds, enough, fair) =
    absurd (ground (arith, succeeds))
script-Ready ((kill true, slots) ∷ more) p w v j e (succeeds, enough, fair) =
    let p' = (kill_thread true p).0 in
    let enough' =
      subst (λ p. (leb p.current_nums 0 ≡ true) ⊎ (2 ≤ turns_of p.current_nums slots)) (sym e)
        enough in
    then_Ready (events_of (kill true) slots p) (script_events more p') p'
      (main_loop (keys_of more) p').0 w
      (subst (λ p. Ready (kill_thread true p).0 (run (events_of (kill true) slots p) w)) e
        (kill-Ready slots w v j (leb w.pool.current_nums 0) refl enough'))
      (λ w' v' j' e'. script-Ready more p' w' v' j' e' fair)
script-Ready ((quit, slots) ∷ more) p w v j e fair = (unfold run in (w, refl, v, j, e))
script-Ready ((other, slots) ∷ more) p w v j e fair =
    then_Ready (map runs slots) (script_events more p) p (main_loop (keys_of more) p).0 w
      (subst (λ p. Ready p (run (map runs slots) w)) e (turns-Ready slots w v j))
      (λ w' v' j' e'. script-Ready more p w' v' j' e' fair)

-- For any keys, with any turns of the threads between them, where each thread that is told to
-- stop has two turns at least before the next key: the program comes through all of them up to
-- the first `q`, each wait ends, and its array is then that of `main_loop` on the keys alone.
pub script-main_loop :
    (script : Script)
    → Fair script start
    → (w : World) × (run (script_events script start) at_start ≡ some w)
      × (w.pool ≡ (main_loop (keys_of script) start).0)
      × (w.joining ≡ false)
script-main_loop script fair =
    let (w, ran, v, free, pool) =
      script-Ready script start at_start at_start-IsWorld refl refl fair in
    (w, ran, pool, free)
