-- ===== src/Spthread/Stack.antt =====
-- The threads of spthread.c as a stack of at most ten.
use native.Mathlib.Nat.{suc-add}
use linux_summary.Base.{
  Bool, ℕ, zero, suc, ◌+◌, ◌-◌, ◌≤◌, ◌<◌, ◌≡◌, refl, ap, sym, ◌∙◌, true, false, Option, none, some,
  List, [], ◌∷◌, ◌++◌, leb, ltb, if◌then◌else◌, set, length, take, arith, length-set, All,
  length-take, All-append, Bool-cases, inl, inr, le→ltb, lt→ltb, leb→le,
}
use linux_summary.Spthread.{
  ThreadArg, Pool, Key, create, kill, quit, other, create_thread, set_running, kill_thread, step,
  main_loop,
}

-- The threads that are running, the first made first.
abbrev pub threads : Pool → List ThreadArg
threads p = take p.current_nums p.args

pub record IsValid (p : Pool) : Type 0 where
  pub slots : length p.args ≡ 10
  pub bounded : p.current_nums ≤ 10
  pub all_run : All (λ a. a.running ≡ true) (threads p)

take-set_last :
    (xs : List ThreadArg) (n : ℕ) (v : ThreadArg)
    → n < length xs
    → take (n + 1) (set xs n v) ≡ take n xs ++ (v ∷ [])
take-set_last [] n v h = absurd (omega arith)
take-set_last (x ∷ xs) zero v h = refl
take-set_last (x ∷ xs) (suc n) v h =
    rw suc-add (ap (λ t. x ∷ t) (take-set_last xs n v (omega arith)))

take-set_running :
    (r : Bool) (xs : List ThreadArg) (n : ℕ) → take n (set_running r xs n) ≡ take n xs
unfolding set_running
take-set_running r [] n = refl
take-set_running r (x ∷ xs) zero = refl
take-set_running r (x ∷ xs) (suc n) = ap (λ t. x ∷ t) (take-set_running r xs n)

pub length-set_running :
    (r : Bool) (xs : List ThreadArg) (n : ℕ) → length (set_running r xs n) ≡ length xs
unfolding set_running
length-set_running r [] n = refl
length-set_running r (x ∷ xs) zero = refl
length-set_running r (x ∷ xs) (suc n) = ap suc (length-set_running r xs n)

-- The stack that the keys mean: `push` on a stack with room, `pop` on one that is not empty.
abbrev pub pop : List ThreadArg → List ThreadArg
pop [] = []
pop (a ∷ []) = []
pop (a ∷ b ∷ rest) = a ∷ pop (b ∷ rest)

abbrev pub stack_step : Key → List ThreadArg → List ThreadArg
stack_step (create none) s = s
stack_step (create (some t)) s =
    if ltb (length s) 10 then s ++ (record { running = true; tid = t } ∷ []) else s
stack_step (kill joins) s = if joins then pop s else s
stack_step quit s = s
stack_step other s = s

pop-take : (n : ℕ) (xs : List ThreadArg) → suc n ≤ length xs → pop (take (suc n) xs) ≡ take n xs
pop-take n [] h = absurd (omega arith)
pop-take zero (x ∷ xs) h = refl
pop-take (suc n) (x ∷ []) h = absurd (omega arith)
pop-take (suc n) (x ∷ y ∷ xs) h = ap (λ t. x ∷ t) (pop-take n (y ∷ xs) (omega arith))

-- No `pthread_join` of these keys fails.
abbrev pub Joins : Key → Type 0
Joins (kill joins) = joins ≡ true
Joins _ = Unit

-- What a round does to a valid pool.
abbrev pub Steps : Key → Pool → Pool → Type 0
Steps key p p' = IsValid p' × (threads p' ≡ stack_step key (threads p))

length-threads : {p : Pool} → IsValid p → length (threads p) ≡ p.current_nums
length-threads {p} v = omega (arith, length-take p.current_nums p.args, v.slots, v.bounded)

unchanged :
    {p : Pool} (args : List ThreadArg)
    → IsValid p
    → length args ≡ length p.args
    → take p.current_nums args ≡ threads p
    → IsValid (record p { args = args })
unchanged args v same front = record {
  slots = omega (arith, v.slots);
  bounded = v.bounded;
  all_run = rw front v.all_run;
}

create_thread-Steps :
    (t : Option ℕ) {p : Pool} → IsValid p → Steps (create t) p (create_thread t p).0
unfolding create_thread
create_thread-Steps none {p} v = elim (Bool-cases (leb 10 p.current_nums)) [
  | inl full ↦ rw full (v, refl)
  | inr room ↦
      let front = take-set_running true p.args p.current_nums in
      rw room (
        unchanged (set_running true p.args p.current_nums) v
            (length-set_running true p.args p.current_nums) front,
        front,
      )
]
create_thread-Steps (some t) {p} v = elim (Bool-cases (leb 10 p.current_nums)) [
  | inl full ↦
      rw
        (
          full,
          le→ltb (length (threads p)) 10
              (omega (arith, length-threads v, leb→le 10 p.current_nums full)),
        )
        (v, refl)
  | inr room ↦
      let made : ThreadArg = record { running = true; tid = t } in
      let n = p.current_nums in
      let below : n < 10 = ground arith in
      let front = take-set_last p.args n made (omega (arith, v.slots)) in
      rw (room, lt→ltb (length (threads p)) 10 (omega (arith, length-threads v)))
        (
          record {
            slots = omega (arith, length-set p.args n made, v.slots);
            bounded = omega arith;
            all_run =
                rw front
                  (All-append (λ a. a.running ≡ true) (threads p) (made ∷ []) v.all_run (refl, tt));
          },
          front,
        )
]

All-pop : (s : List ThreadArg) → All (λ a. a.running ≡ true) s → All (λ a. a.running ≡ true) (pop s)
All-pop [] h = tt
All-pop (a ∷ []) h = tt
All-pop (a ∷ b ∷ rest) h = (h.0, All-pop (b ∷ rest) h.1)

kill_last :
    (n : ℕ) (args : List ThreadArg)
    → let p : Pool = record { current_nums = n; args = args } in
      IsValid p → Steps (kill true) p (kill_thread true p).0
unfolding kill_thread
kill_last zero args v = (v, refl)
kill_last (suc n) args v =
    let some_left : leb (suc n) 0 ≡ false = ground arith in
    let less : suc n - 1 ≡ n = omega arith in
    let front =
      take-set_running false args n ∙ sym (pop-take n args (omega (arith, v.slots, v.bounded))) in
    rw (some_left, less)
      (
        record {
          slots = omega (arith, length-set_running false args n, v.slots);
          bounded = omega (arith, v.bounded);
          all_run = rw front (All-pop (take (suc n) args) v.all_run);
        },
        front,
      )

-- The keys that are dealt with: those before the first `q`.
abbrev pub stack_run : List Key → List ThreadArg → List ThreadArg
stack_run [] s = s
stack_run (create t ∷ keys) s = stack_run keys (stack_step (create t) s)
stack_run (kill joins ∷ keys) s = stack_run keys (stack_step (kill joins) s)
stack_run (quit ∷ keys) s = s
stack_run (other ∷ keys) s = stack_run keys s

-- For any keys whose joins succeed, from a valid pool: the pool stays valid, with at most ten
-- threads, every one of them marked as running, and the threads are the stack that the keys mean:
-- `c` pushes where there is room and the thread can be made, `k` pops where there is one, and
-- nothing happens from the first `q` on.
pub main_loop-stack_run :
    (keys : List Key) (p : Pool)
    → IsValid p
    → All Joins keys
    → IsValid (main_loop keys p).0 × (threads (main_loop keys p).0 ≡ stack_run keys (threads p))
unfolding main_loop step
main_loop-stack_run [] p v j = (v, refl)
main_loop-stack_run (create t ∷ keys) p v j =
    let (v', front) = create_thread-Steps t v in
    rw (← front) (main_loop-stack_run keys (create_thread t p).0 v' j.1)
main_loop-stack_run (kill joins ∷ keys) p v j = rw (j.0) (
    let (v', front) = kill_last p.current_nums p.args v in
    rw (← front) (main_loop-stack_run keys (kill_thread true p).0 v' j.1))
main_loop-stack_run (quit ∷ keys) p v j = (v, refl)
main_loop-stack_run (other ∷ keys) p v j = main_loop-stack_run keys p v j.1
