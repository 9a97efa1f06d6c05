-- ===== src/Eventfd/Writer.antt =====
-- `thread_write` of foo.c, and what the reading thread gets of its writes.

use linux_summary.Base.{
  ℕ, zero, suc, ◌+◌, ◌*◌, ◌≤◌, ◌≡◌, refl, ap, sym, ◌∙◌, Bool, true, false, if◌then◌else◌, ◌==◌,
  ==_iff, List, [], ◌∷◌, ◌++◌, map, append_assoc, replicate, length, arith,
}
use linux_summary.Eventfd.Main.{write_num}
use linux_summary.Eventfd.Reader.{
  timeout, wait_timeout, max_events, all_added, thread_read, batch, thread_read-batches,
}
use linux_summary.Eventfd.Counts.{
  Op, writes_of, reads_of, IsCount, sum_of, sum, sum-append, sum_lines, flatten, kept,
  sum_lines-batches,
}

pub data WriteLine : Type 0 where
  enters leaves : (efd : ℕ) → WriteLine
  wrote : (efd count i : ℕ) → WriteLine

-- The loop with `n` rounds left, over the results of `write` to come, `false` for an error: what is
-- printed, and whether the loop is through. The count that is written is the descriptor.
unfoldable pub write_loop : (efd n i : ℕ) → List Bool → List WriteLine × Bool
write_loop efd zero i results = ([], true)
write_loop efd (suc n) i [] = ([], false)
write_loop efd (suc n) i (false ∷ results) = ([], true)
write_loop efd (suc n) i (true ∷ results) =
    let (lines, through) = write_loop efd n (i + 1) results in (wrote efd efd i ∷ lines, through)

unfoldable pub thread_write : (efd n : ℕ) → List Bool → List WriteLine
unfolding write_loop
thread_write efd n results =
    let (lines, through) = write_loop efd n 0 results in
    enters efd ∷ lines ++ (if through then leaves efd ∷ [] else [])

-- The counts that the thread writes to a descriptor, by its lines.
abbrev pub written_to : ℕ → List WriteLine → List ℕ
written_to fd [] = []
written_to fd (enters efd ∷ lines) = written_to fd lines
written_to fd (leaves efd ∷ lines) = written_to fd lines
written_to fd (wrote efd count i ∷ lines) =
    (if efd == fd then count ∷ [] else []) ++ written_to fd lines

-- How many of the first `n` results come before a failure and before the end.
abbrev pub successes : (n : ℕ) → List Bool → ℕ
successes zero results = 0
successes (suc n) [] = 0
successes (suc n) (false ∷ results) = 0
successes (suc n) (true ∷ results) = 1 + successes n results

written_to-append :
    (fd : ℕ) (xs ys : List WriteLine)
    → written_to fd (xs ++ ys) ≡ written_to fd xs ++ written_to fd ys
written_to-append fd [] ys = refl
written_to-append fd (enters efd ∷ xs) ys = written_to-append fd xs ys
written_to-append fd (leaves efd ∷ xs) ys = written_to-append fd xs ys
written_to-append fd (wrote efd count i ∷ xs) ys =
    let here = if efd == fd then count ∷ [] else [] in
    ap (λ l. here ++ l) (written_to-append fd xs ys)
    ∙ sym (append_assoc here (written_to fd xs) (written_to fd ys))

sum-write_loop :
    (efd n i : ℕ) (results : List Bool)
    → sum (written_to efd (write_loop efd n i results).0) ≡ efd * successes n results
unfolding write_loop
sum-write_loop efd zero i results = omega arith
sum-write_loop efd (suc n) i [] = omega arith
sum-write_loop efd (suc n) i (false ∷ results) = omega arith
sum-write_loop efd (suc n) i (true ∷ results) =
    rw ((==_iff efd efd).1 refl) (omega (arith, sum-write_loop efd n (i + 1) results))

written_to-leaves :
    (fd efd : ℕ) (through : Bool) → written_to fd (if through then leaves efd ∷ [] else []) ≡ []
written_to-leaves fd efd true = refl
written_to-leaves fd efd false = refl

-- What a thread writes: its descriptor, once for each write that succeeds, up to `n` times.
sum-thread_write :
    (efd n : ℕ) (results : List Bool)
    → sum (written_to efd (thread_write efd n results)) ≡ efd * successes n results
unfolding thread_write
sum-thread_write efd n results =
    let (lines, through) = write_loop efd n 0 results in
    let last = if through then leaves efd ∷ [] else [] in
    ap sum (written_to-append efd lines last)
    ∙ sum-append (written_to efd lines) (written_to efd last)
    ∙ omega (arith, sum-write_loop efd n 0 results, ap sum (written_to-leaves efd efd through))

-- However the writes of the threads and the reads come in between each other, and however the
-- reads come in batches: what the reading thread prints of a descriptor, with what is still in
-- it, is what was written to it. Where all is read before the timeout, and what was written to it
-- are the counts that its writing thread prints, the counts that the reading thread prints sum up
-- to the descriptor's number times the writes that succeed before one fails, which are ten where
-- none fails: no write is lost and none is read twice.
pub thread_read-total :
    {ops : ℕ → Op} {count : ℕ → ℕ → ℕ} (adds : ℕ → Bool) (fds : List ℕ)
    (batches : List ((ℕ × ℕ) × List (ℕ × ℕ))) (fd n : ℕ)
    → IsCount ops count
    → length fds ≤ max_events
    → all_added adds fds ≡ true
    → flatten batches ≡ reads_of ops count n
    → let lines = (thread_read true adds fds (map batch batches ++ timeout ∷ [])).lines in
      (sum_lines fd lines + count n fd ≡ sum (writes_of ops fd n))
      × ((results : List Bool)
          → count n fd ≡ 0
          → writes_of ops fd n ≡ written_to fd (thread_write fd write_num results)
          → (sum_lines fd lines ≡ fd * successes write_num results)
            × (results ≡ replicate write_num true → sum_lines fd lines ≡ fd * 10))
thread_read-total {ops} {count} adds fds batches fd n is few added all_read =
    let printed = ap (λ o. o.lines) ((thread_read-batches adds fds batches [] few added).0) in
    let total = ap (sum_lines fd) printed ∙ sum_lines-batches fd batches (wait_timeout ∷ []) in
    let written : sum_of fd (flatten batches) + count n fd ≡ sum (writes_of ops fd n) =
      ap (λ l. sum_of fd l + count n fd) all_read ∙ kept is fd n in
    (
      omega (arith, total, written),
      λ results empty all_written.
          let of_thread = ap sum all_written ∙ sum-thread_write fd write_num results in
          (
            omega (arith, total, written, empty, of_thread),
            λ all_succeed. omega (
              arith,
              total,
              written,
              empty,
              of_thread,
              ap (λ r. fd * successes write_num r) all_succeed,
            ),
          ),
    )
