-- ===== src/Eventfd/Counts.antt =====
-- The writes and reads of the eventfds of foo.c, in the order in which they happen, and their sums.
use linux_summary.Base.{
  ℕ, zero, suc, ◌+◌, ◌≡◌, refl, ap, ◌∙◌, if◌then◌else◌, ◌==◌, ==_iff, Bool-cases, inl, inr, List,
  [], ◌∷◌, ◌++◌, map, append_assoc, arith,
}
use linux_summary.Eventfd.Reader.{Line, read_count, wait_timeout, line_of, all_lines}

-- What the threads do to the eventfds, in the order in which it happens.
pub data Op : Type 0 where
  writes : (fd value : ℕ) → Op
  reads : (fd : ℕ) → Op

-- What is written to a descriptor in the first `n` operations, and what the reads among them give.
abbrev pub writes_of : (ℕ → Op) → ℕ → ℕ → List ℕ
writes_of ops fd zero = []
writes_of ops fd (suc n) = elim (ops n) [
  | writes x value ↦ writes_of ops fd n ++ (if x == fd then value ∷ [] else [])
  | reads x ↦ writes_of ops fd n
]

abbrev pub reads_of : (ℕ → Op) → (count : ℕ → ℕ → ℕ) → ℕ → List (ℕ × ℕ)
reads_of ops count zero = []
reads_of ops count (suc n) = elim (ops n) [
  | writes x value ↦ reads_of ops count n
  | reads x ↦ reads_of ops count n ++ (x, count n x) ∷ []
]

-- The counts of the eventfds before each operation: a write adds its value, and a read gives the
-- count and sets it to 0.
pub record IsCount (ops : ℕ → Op) (count : ℕ → ℕ → ℕ) : Type 0 where
  pub start : (fd : ℕ) → count 0 fd ≡ 0
  pub write :
      (n x value fd : ℕ)
      → ops n ≡ writes x value
      → count (suc n) fd ≡ count n fd + (if x == fd then value else 0)
  pub read : (n x fd : ℕ) → ops n ≡ reads x → count (suc n) fd ≡ (if x == fd then 0 else count n fd)

-- The sum of what is read of a descriptor, and of what is printed of it.
abbrev pub sum_of : ℕ → List (ℕ × ℕ) → ℕ
sum_of fd [] = 0
sum_of fd ((x, c) ∷ cs) = (if x == fd then c else 0) + sum_of fd cs

abbrev pub sum : List ℕ → ℕ
sum [] = 0
sum (v ∷ vs) = v + sum vs

pub sum-append : (xs ys : List ℕ) → sum (xs ++ ys) ≡ sum xs + sum ys
sum-append [] ys = omega arith
sum-append (x ∷ xs) ys = omega (arith, sum-append xs ys)

abbrev pub sum_lines : ℕ → List Line → ℕ
sum_lines fd [] = 0
sum_lines fd (read_count x c ∷ lines) = (if x == fd then c else 0) + sum_lines fd lines
sum_lines fd (wait_timeout ∷ lines) = sum_lines fd lines

abbrev pub flatten : List ((ℕ × ℕ) × List (ℕ × ℕ)) → List (ℕ × ℕ)
flatten [] = []
flatten ((c, cs) ∷ rest) = (c ∷ cs) ++ flatten rest

sum_of-append : (fd : ℕ) (xs ys : List (ℕ × ℕ)) → sum_of fd (xs ++ ys) ≡ sum_of fd xs + sum_of fd ys
sum_of-append fd [] ys = omega arith
sum_of-append fd ((x, c) ∷ xs) ys = omega (arith, sum_of-append fd xs ys)

-- What was read of a descriptor and what is left in it are what was written to it.
pub kept :
    {ops : ℕ → Op} {count : ℕ → ℕ → ℕ}
    → IsCount ops count
    → (fd n : ℕ) → sum_of fd (reads_of ops count n) + count n fd ≡ sum (writes_of ops fd n)
kept is fd zero = omega (arith, is.start fd)
kept {ops} {count} is fd (suc n) = go (ops n) refl (kept is fd n)
  where
    go :
        (op : Op)
        → ops n ≡ op
        → sum_of fd (reads_of ops count n) + count n fd ≡ sum (writes_of ops fd n)
        → sum_of fd (reads_of ops count (suc n)) + count (suc n) fd ≡ sum (writes_of ops fd (suc n))
    go (writes x value) e before =
        let after = is.write n x value fd e in
        let more = sum-append (writes_of ops fd n) (if x == fd then value ∷ [] else []) in
        elim (Bool-cases (x == fd)) [
          | inl same ↦ rw (reads_of, writes_of, e, after, more, same) (omega (arith, before))
          | inr other ↦ rw (reads_of, writes_of, e, after, more, other) (omega (arith, before))
        ]
    go (reads x) e before =
        let more = sum_of-append fd (reads_of ops count n) ((x, count n x) ∷ []) in
        elim (Bool-cases (x == fd)) [
          | inl same ↦
              let here : count n x ≡ count n fd = ap (count n) ((==_iff x fd).0 same) in
              let after = is.read n x fd e in
              rw (reads_of, writes_of, e, after, more, same) (omega (arith, before, here))
          | inr other ↦
              let after = is.read n x fd e in
              rw (reads_of, writes_of, e, after, more, other) (omega (arith, before))
        ]

sum_lines-map :
    (fd : ℕ) (cs : List (ℕ × ℕ)) (lines : List Line)
    → sum_lines fd (map line_of cs ++ lines) ≡ sum_of fd cs + sum_lines fd lines
sum_lines-map fd [] lines = omega arith
sum_lines-map fd ((x, c) ∷ cs) lines = omega (arith, sum_lines-map fd cs lines)

pub sum_lines-batches :
    (fd : ℕ) (batches : List ((ℕ × ℕ) × List (ℕ × ℕ))) (lines : List Line)
    → sum_lines fd (all_lines batches ++ lines) ≡ sum_of fd (flatten batches) + sum_lines fd lines
sum_lines-batches fd [] lines = omega arith
sum_lines-batches fd ((c, cs) ∷ rest) lines =
    ap (sum_lines fd) (append_assoc (map line_of (c ∷ cs)) (all_lines rest) lines)
    ∙ omega (
      arith,
      sum_lines-map fd (c ∷ cs) (all_lines rest ++ lines),
      sum_lines-batches fd rest lines,
      sum_of-append fd (c ∷ cs) (flatten rest),
    )
