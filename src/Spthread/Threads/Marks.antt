-- ===== src/Spthread/Threads/Marks.antt =====
-- The marks in the array of spthread.c and the threads that read them: what each event keeps.
use linux_summary.Base.{
  ℕ, zero, suc, ◌-◌, ◌≤◌, ◌<◌, ◌≡◌, refl, ap, Bool, true, false, List, [], ◌∷◌, ◌++◌, ◌==◌,
  if◌then◌else◌, length, set, arith,
}
use linux_summary.Spthread.{ThreadArg, set_running}
use linux_summary.Spthread.Threads.{
  Phase, fresh, looping, finished, Thread, turn, run_thread, pop, is_finished, last_finished,
}

-- Every thread is marked as running, and none has come to its end.
abbrev pub Runs : List ThreadArg → List Thread → Type 0
Runs args [] = Unit
Runs [] (t ∷ ts) = ⊥
Runs (a ∷ args) (t ∷ ts) = (a.running ≡ true) × (is_finished t.phase ≡ false) × Runs args ts

-- So it is with all but the last, which is told to stop.
abbrev pub Stops : List ThreadArg → List Thread → Type 0
Stops args [] = ⊥
Stops [] (t ∷ ts) = ⊥
Stops (a ∷ args) (t ∷ []) = a.running ≡ false
Stops (a ∷ args) (t ∷ u ∷ ts) =
    (a.running ≡ true) × (is_finished t.phase ≡ false) × Stops args (u ∷ ts)

abbrev pub Marks : (joining : Bool) → List ThreadArg → List Thread → Type 0
Marks false args live = Runs args live
Marks true args live = Stops args live

pub turn-runs :
    (t : ℕ) (p : Phase) → is_finished p ≡ false → is_finished (turn true t p).0.phase ≡ false
unfolding turn
turn-runs t fresh h = refl
turn-runs t looping h = refl
turn-runs t finished h = cc

pub run_thread-Runs :
    (i : ℕ) (args : List ThreadArg) (live : List Thread)
    → Runs args live
    → Runs args (run_thread i args live).0 × (length (run_thread i args live).0 ≡ length live)
unfolding run_thread
run_thread-Runs i args [] h = (tt, refl)
run_thread-Runs i [] (t ∷ ts) h = elim h [ ]
run_thread-Runs zero (a ∷ args) (t ∷ ts) (r, f, h) =
    ((r, rw r (turn-runs t.tid t.phase f), h), refl)
run_thread-Runs (suc i) (a ∷ args) (t ∷ ts) (r, f, h) =
    let (runs, same) = run_thread-Runs i args ts h in ((r, f, runs), ap suc same)

-- How many turns the last thread needs to come to its end.
abbrev pub turns_left : Phase → ℕ
turns_left fresh = 2
turns_left looping = 1
turns_left finished = 0

abbrev pub left : List Thread → ℕ
left [] = 0
left (t ∷ []) = turns_left t.phase
left (t ∷ u ∷ ts) = left (u ∷ ts)

pub turn-left : (t : ℕ) (p : Phase) → turns_left (turn false t p).0.phase ≡ turns_left p - 1
unfolding turn
turn-left t fresh = refl
turn-left t looping = refl
turn-left t finished = refl

Stops-cons :
    (a : ThreadArg) (args : List ThreadArg) (t : Thread) (ts : List Thread)
    → a.running ≡ true
    → is_finished t.phase ≡ false
    → Stops args ts
    → Stops (a ∷ args) (t ∷ ts) × (left (t ∷ ts) ≡ left ts)
Stops-cons a args t [] r f h = elim h [ ]
Stops-cons a args t (u ∷ ts) r f h = ((r, f, h), refl)

-- A turn keeps the marks, and brings the last thread nearer to its end where it is that one's.
pub run_thread-Stops :
    (i : ℕ) (args : List ThreadArg) (live : List Thread)
    → Stops args live
    → Stops args (run_thread i args live).0
      × (length (run_thread i args live).0 ≡ length live)
      × (left (run_thread i args live).0 ≡ left live - (if suc i == length live then 1 else 0))
unfolding run_thread
run_thread-Stops i args [] h = elim h [ ]
run_thread-Stops i [] (t ∷ ts) h = elim h [ ]
run_thread-Stops zero (a ∷ args) (t ∷ []) h = (h, refl, rw h (turn-left t.tid t.phase))
run_thread-Stops (suc i) (a ∷ args) (t ∷ []) h = (h, refl, ground arith)
run_thread-Stops zero (a ∷ args) (t ∷ u ∷ ts) (r, f, h) =
    ((r, rw r (turn-runs t.tid t.phase f), h), refl, ground arith)
run_thread-Stops (suc i) (a ∷ args) (t ∷ u ∷ ts) (r, f, h) =
    let (stops, same, fewer) = run_thread-Stops i args (u ∷ ts) h in
    let (stops', left') = Stops-cons a args t (run_thread i args (u ∷ ts)).0 r f stops in
    (stops', ap suc same, rw left' (rw fewer (ground arith)))

pub left-finished :
    (args : List ThreadArg) (live : List Thread)
    → Stops args live
    → left live ≡ 0
    → last_finished live ≡ true
left-finished args [] h z = elim h [ ]
left-finished [] (t ∷ ts) h z = elim h [ ]
left-finished (a ∷ args) (t ∷ []) h z = go t.phase z
  where
    go : (p : Phase) → turns_left p ≡ 0 → is_finished p ≡ true
    go fresh z = absurd (omega arith)
    go looping z = absurd (omega arith)
    go finished z = refl
left-finished (a ∷ args) (t ∷ u ∷ ts) h z = left-finished args (u ∷ ts) h.2 z

pub left-le : (live : List Thread) → left live ≤ 2
left-le [] = omega arith
left-le (t ∷ []) = go t.phase
  where
    go : (p : Phase) → turns_left p ≤ 2
    go fresh = omega arith
    go looping = omega arith
    go finished = omega arith
left-le (t ∷ u ∷ ts) = left-le (u ∷ ts)

pub Runs-set_running :
    (r : Bool) (args : List ThreadArg) (live : List Thread)
    → Runs args live
    → Runs (set_running r args (length live)) live
unfolding set_running
Runs-set_running r args [] h = tt
Runs-set_running r [] (t ∷ ts) h = elim h [ ]
Runs-set_running r (a ∷ args) (t ∷ ts) (e, f, h) = (e, f, Runs-set_running r args ts h)

pub Runs-create :
    (t : ℕ) (args : List ThreadArg) (live : List Thread)
    → Runs args live
    → length live < length args
    → Runs
        (set args (length live) (record { running = true; tid = t }))
        (live ++ record { tid = t; phase = fresh } ∷ [])
Runs-create t [] [] h below = absurd (omega arith)
Runs-create t (a ∷ args) [] h below = (refl, refl, tt)
Runs-create t [] (u ∷ ts) h below = elim h [ ]
Runs-create t (a ∷ args) (u ∷ ts) (e, f, h) below = (e, f, Runs-create t args ts h (omega arith))

pub Stops-set_running :
    (args : List ThreadArg) (live : List Thread) (n : ℕ)
    → Runs args live
    → length live ≡ suc n
    → Stops (set_running false args n) live
unfolding set_running
Stops-set_running args [] n h e = absurd (omega arith)
Stops-set_running [] (t ∷ ts) n h e = elim h [ ]
Stops-set_running (a ∷ args) (t ∷ []) zero h e = refl
Stops-set_running (a ∷ args) (t ∷ []) (suc n) h e = absurd (omega arith)
Stops-set_running (a ∷ args) (t ∷ u ∷ ts) zero h e = absurd (omega arith)
Stops-set_running (a ∷ args) (t ∷ u ∷ ts) (suc n) (r, f, h) e =
    (r, f, Stops-set_running args (u ∷ ts) n h (omega arith))

pub Runs-pop :
    (args : List ThreadArg) (live : List Thread)
    → Stops args live
    → Runs args (pop live) × (length live ≡ suc (length (pop live)))
Runs-pop args [] h = elim h [ ]
Runs-pop [] (t ∷ ts) h = elim h [ ]
Runs-pop (a ∷ args) (t ∷ []) h = (tt, refl)
Runs-pop (a ∷ args) (t ∷ u ∷ ts) (e, f, h) =
    let (runs, same) = Runs-pop args (u ∷ ts) h in ((e, f, runs), ap suc same)
