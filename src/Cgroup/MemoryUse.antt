-- ===== src/Cgroup/MemoryUse.antt =====
-- src/python/cgroup/memory_use.c
use linux_summary.Base.{
  ℕ, zero, suc, ◌+◌, ◌*◌, ◌≡◌, ◌≢◌, refl, ap, Option, none, some, List, [], ◌∷◌, ◌++◌, ◌==◌,
  if◌then◌else◌, arith, Bool, true, false,
}

-- `MB`
abbrev pub block_size : ℕ
block_size = 10 * 1024 * 1024

-- What `getchar` gives as a `char`: at the end of the input the byte of -1.
abbrev pub as_char : Option ℕ → ℕ
as_char none = 255
as_char (some c) = c

-- How the program stands: whether it goes on, what it has printed and the bytes that it holds.
-- `crashed` where `memset` is given the NULL of `malloc`.
pub data Stands : Type 0 where
  goes_on : (printed : List ℕ) → (held : ℕ) → Stands
  ended : (printed : List ℕ) → (held : ℕ) → Stands
  crashed : Stands

-- One round, with what `getchar` gives and whether `malloc` does.
abbrev pub round : (i : ℕ) → Option ℕ → Bool → Stands → Stands
round i key mallocs (goes_on printed held) =
    if as_char key == b'q'
    then ended printed held
    else (if mallocs then goes_on (printed ++ i ∷ []) (held + block_size) else crashed)
round i key mallocs (ended printed held) = ended printed held
round i key mallocs crashed = crashed

-- `n` rounds of the loop.
unfoldable pub rounds : (n : ℕ) → (keys : ℕ → Option ℕ) → (mallocs : ℕ → Bool) → Stands
rounds zero keys mallocs = goes_on [] 0
rounds (suc n) keys mallocs = round n (keys n) (mallocs n) (rounds n keys mallocs)

-- 0, 1, ... below `n`
abbrev pub up_to : ℕ → List ℕ
up_to zero = []
up_to (suc n) = up_to n ++ n ∷ []

-- While no `q` comes and there is memory, each round prints its number and keeps ten megabytes
-- more. The end of the input is no `q`, so behind it the program never ends.
pub rounds-held :
    (n : ℕ) (keys : ℕ → Option ℕ) (mallocs : ℕ → Bool)
    → ((i : ℕ) → as_char (keys i) ≢ b'q')
    → ((i : ℕ) → mallocs i ≡ true)
    → rounds n keys mallocs ≡ goes_on (up_to n) (n * block_size)
unfolding rounds
rounds-held zero keys mallocs no_q there = refl
rounds-held (suc n) keys mallocs no_q there =
    let other : (as_char (keys n) == b'q') ≡ false = ground (arith, no_q n) in
    rw (rounds-held n keys mallocs no_q there, other, there n)
      (ap (λ k. goes_on (up_to (suc n)) k) (omega arith))
