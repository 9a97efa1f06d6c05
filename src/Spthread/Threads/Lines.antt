-- ===== src/Spthread/Threads/Lines.antt =====
-- The lines of the threads of spthread.c, counted.

use linux_summary.Base.{
  ℕ, zero, suc, ◌+◌, ◌≡◌, refl, ap, Bool, true, false, List, [], ◌∷◌, ◌++◌, ◌==◌, if◌then◌else◌,
  arith,
}
use linux_summary.Spthread.{ThreadArg}
use linux_summary.Spthread.Threads.{
  Phase, fresh, looping, finished, Thread, Line, enter, exit, turn, run_thread, pop, is_finished,
  last_finished,
}

abbrev pub one : Bool → ℕ
one b = if b then 1 else 0

-- How many lines of each kind a thread has printed.
abbrev pub enters : ℕ → List Line → ℕ
enters t [] = 0
enters t (enter u ∷ lines) = one (u == t) + enters t lines
enters t (exit u ∷ lines) = enters t lines

abbrev pub exits : ℕ → List Line → ℕ
exits t [] = 0
exits t (enter u ∷ lines) = exits t lines
exits t (exit u ∷ lines) = one (u == t) + exits t lines

abbrev pub is_looping : Phase → Bool
is_looping fresh = false
is_looping looping = true
is_looping finished = false

-- How many threads of this name are in their loops.
abbrev pub loopers : ℕ → List Thread → ℕ
loopers t [] = 0
loopers t (u ∷ us) = (if is_looping u.phase then one (u.tid == t) else 0) + loopers t us

pub enters-append : (t : ℕ) (xs ys : List Line) → enters t (xs ++ ys) ≡ enters t xs + enters t ys
enters-append t [] ys = omega arith
enters-append t (enter u ∷ xs) ys = omega (arith, enters-append t xs ys)
enters-append t (exit u ∷ xs) ys = enters-append t xs ys

pub exits-append : (t : ℕ) (xs ys : List Line) → exits t (xs ++ ys) ≡ exits t xs + exits t ys
exits-append t [] ys = omega arith
exits-append t (enter u ∷ xs) ys = exits-append t xs ys
exits-append t (exit u ∷ xs) ys = omega (arith, exits-append t xs ys)

pub loopers-append :
    (t : ℕ) (xs ys : List Thread) → loopers t (xs ++ ys) ≡ loopers t xs + loopers t ys
loopers-append t [] ys = omega arith
loopers-append t (x ∷ xs) ys = omega (arith, loopers-append t xs ys)

turn-lines :
    (r : Bool) (t u : ℕ) (p : Phase)
    → enters t (turn r u p).1 + loopers t (record { tid = u; phase = p } ∷ [])
      ≡ exits t (turn r u p).1 + loopers t ((turn r u p).0 ∷ [])
unfolding turn
turn-lines r t u fresh = omega arith
turn-lines true t u looping = refl
turn-lines false t u looping = omega arith
turn-lines r t u finished = refl

pub run_thread-lines :
    (t i : ℕ) (args : List ThreadArg) (live : List Thread)
    → enters t (run_thread i args live).1 + loopers t live
      ≡ exits t (run_thread i args live).1 + loopers t (run_thread i args live).0
unfolding run_thread
run_thread-lines t i args [] = refl
run_thread-lines t i [] (u ∷ us) = refl
run_thread-lines t zero (a ∷ args) (u ∷ us) = omega (arith, turn-lines a.running t u.tid u.phase)
run_thread-lines t (suc i) (a ∷ args) (u ∷ us) = omega (arith, run_thread-lines t i args us)

pub loopers-pop :
    (t : ℕ) (live : List Thread) → last_finished live ≡ true → loopers t (pop live) ≡ loopers t live
loopers-pop t [] h = refl
loopers-pop t (u ∷ []) h = go u.phase h
  where
    go : (p : Phase) → is_finished p ≡ true → 0 ≡ (if is_looping p then one (u.tid == t) else 0) + 0
    go fresh h = cc
    go looping h = cc
    go finished h = refl
loopers-pop t (u ∷ v ∷ us) h =
    ap (λ n. (if is_looping u.phase then one (u.tid == t) else 0) + n) (loopers-pop t (v ∷ us) h)
