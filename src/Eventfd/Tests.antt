-- ===== src/Eventfd/Tests.antt =====
-- The theorems on foo.c at short runs.
use linux_summary.Base.{
  ℕ, zero, suc, ◌*◌, Bool, List, replicate, ◌==◌, if◌then◌else◌, ◌+◌, ◌≡◌, refl, true, false, none,
  some, [], ◌∷◌, ◌++◌, map, arith,
}
use linux_summary.Eventfd.Main.{Answers, write_num}
use linux_summary.Eventfd.Counts.{Op, writes, reads, writes_of, sum, sum_lines}
use linux_summary.Eventfd.Writer.{
  thread_write, write_loop, written_to, successes, thread_read-total,
}
use linux_summary.Eventfd.Reader.{timeout, batch, thread_read}

-- The third descriptor cannot be made.
abbrev third_fails : Answers
third_fails = record {
  malloc_efds = true;
  malloc_pids = true;
  malloc_params = true;
  eventfd = λ i. if i == 2 then none else some (i + 3);
  create_reader = true;
}

-- Two writes to the descriptor 5 by its thread, and a read.
abbrev ops : ℕ → Op
ops zero = writes 5 5
ops (suc zero) = writes 5 5
ops (suc (suc n)) = reads 5

abbrev count : ℕ → ℕ → ℕ
count zero fd = 0
count (suc zero) fd = if 5 == fd then 5 else 0
count (suc (suc zero)) fd = if 5 == fd then 10 else 0
count (suc (suc (suc n))) fd = 0

count-write :
    (n x value fd : ℕ)
    → ops n ≡ writes x value
    → count (suc n) fd ≡ count n fd + (if x == fd then value else 0)
count-write zero x value fd e = ground (arith, e)
count-write (suc zero) x value fd e = ground (arith, e)
count-write (suc (suc n)) x value fd e = absurd (ground (arith, e))

count-read : (n x fd : ℕ) → ops n ≡ reads x → count (suc n) fd ≡ (if x == fd then 0 else count n fd)
count-read zero x fd e = absurd (ground (arith, e))
count-read (suc zero) x fd e = absurd (ground (arith, e))
count-read (suc (suc zero)) x fd e = ground (arith, e)
count-read (suc (suc (suc n))) x fd e = ground (arith, e)

-- These are the writes of a thread whose third write fails.
two_writes : writes_of ops 5 3 ≡ written_to 5 (thread_write 5 write_num (true ∷ true ∷ false ∷ []))
unfolding thread_write write_loop
two_writes = refl

thread_read-total_example :
    let lines =
      (thread_read true
        (λ fd. true)
        (5 ∷ [])
        (map batch (((5, 10), []) ∷ []) ++ timeout ∷ [])).lines in
    (sum_lines 5 lines + count 3 5 ≡ sum (writes_of ops 5 3))
    × ((results : List Bool)
        → count 3 5 ≡ 0
        → writes_of ops 5 3 ≡ written_to 5 (thread_write 5 write_num results)
        → (sum_lines 5 lines ≡ 5 * successes write_num results)
          × (results ≡ replicate write_num true → sum_lines 5 lines ≡ 5 * 10))
thread_read-total_example =
    thread_read-total {ops = ops} {count = count} (λ fd. true) (5 ∷ []) (((5, 10), []) ∷ []) 5 3
      (record { start = λ fd. refl; write = count-write; read = count-read }) (omega arith) refl
      refl
