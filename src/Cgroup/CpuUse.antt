-- ===== src/Cgroup/CpuUse.antt =====
-- src/python/cgroup/cpu_use.c, whose threads spin as those of spthread.c do, on one mark for both.
use linux_summary.Base.{ℕ, suc, ◌≤◌, ◌≡◌, refl, Bool, true, false, List, [], ◌∷◌, ◌&&◌, arith}
use linux_summary.Spthread.Threads.{Phase, fresh, looping, finished, turn, is_finished}
use linux_summary.Spthread.Threads.Marks.{turns_left, turn-left, turn-runs}

-- `running`, and where the two threads stand.
pub record World : Type 0 where
  pub running : Bool
  pub first : Phase
  pub second : Phase

abbrev pub at_start : World
at_start = record { running = true; first = fresh; second = fresh }

-- `running = 0`, behind `getchar`.
abbrev pub told : World → World
told w = record w { running = false }

-- Turns of the threads: `true` is one of the first, and `false` one of the second.
unfoldable pub turns : List Bool → World → World
unfolding turn
turns [] w = w
turns (true ∷ more) w = turns more (record w { first = (turn w.running 0 w.first).0.phase })
turns (false ∷ more) w = turns more (record w { second = (turn w.running 1 w.second).0.phase })

-- Both calls of `pthread_join` come back.
abbrev pub joined : World → Bool
joined w = is_finished w.first && is_finished w.second

abbrev pub count : Bool → List Bool → ℕ
count b [] = 0
count true (true ∷ more) = suc (count true more)
count true (false ∷ more) = count true more
count false (true ∷ more) = count false more
count false (false ∷ more) = suc (count false more)

at_end : (p : Phase) → turns_left p ≡ 0 → is_finished p ≡ true
at_end fresh h = absurd (omega arith)
at_end looping h = absurd (omega arith)
at_end finished h = refl

-- Once both are told to stop, they come to their ends as soon as each has had the turns that it
-- lacks, however these come in between each other: the program ends.
pub turns-joined :
    (schedule : List Bool) (w : World)
    → w.running ≡ false
    → turns_left w.first ≤ count true schedule
    → turns_left w.second ≤ count false schedule
    → joined (turns schedule w) ≡ true
unfolding turns
turns-joined [] w stop f s = rw (at_end w.first (omega arith), at_end w.second (omega arith)) refl
turns-joined (true ∷ more) w stop f s =
    turns-joined more (record w { first = (turn w.running 0 w.first).0.phase }) stop
      (rw stop (omega (arith, turn-left 0 w.first, f))) s
turns-joined (false ∷ more) w stop f s =
    turns-joined more (record w { second = (turn w.running 1 w.second).0.phase }) stop f
      (rw stop (omega (arith, turn-left 1 w.second, s)))

-- No thread ends before it is told to.
pub turns-running :
    (schedule : List Bool) (w : World)
    → w.running ≡ true
    → is_finished w.first ≡ false
    → is_finished w.second ≡ false
    → joined (turns schedule w) ≡ false
unfolding turns
turns-running [] w go f s = rw f refl
turns-running (true ∷ more) w go f s =
    turns-running more (record w { first = (turn w.running 0 w.first).0.phase }) go
      (rw go (turn-runs 0 w.first f)) s
turns-running (false ∷ more) w go f s =
    turns-running more (record w { second = (turn w.running 1 w.second).0.phase }) go f
      (rw go (turn-runs 1 w.second s))

-- `main`, with the turns that the threads have before a key comes, and those behind it, while the
-- two calls of `pthread_join` wait.
unfoldable pub main : (before after : List Bool) → World
main before after = turns after (told (turns before at_start))

turns_left-le : (p : Phase) → turns_left p ≤ 2
turns_left-le fresh = omega arith
turns_left-le looping = omega arith
turns_left-le finished = omega arith

-- However the threads have their turns: they run until a key comes, and when each has had two
-- turns behind it, both have ended, and the program does.
pub main-joined :
    (before after : List Bool)
    → 2 ≤ count true after
    → 2 ≤ count false after
    → (joined (turns before at_start) ≡ false) × (joined (main before after) ≡ true)
unfolding main
main-joined before after f s =
    let w = turns before at_start in
    (
      turns-running before at_start refl refl refl,
      turns-joined after (told w) refl (omega (arith, turns_left-le w.first))
          (omega (arith, turns_left-le w.second)),
    )
