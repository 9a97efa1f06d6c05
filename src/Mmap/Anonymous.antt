-- ===== src/Mmap/Anonymous.antt =====
-- src/linux/memory/mmap/mmap_test.c, which maps twenty megabytes and writes to them in two passes.
use linux_summary.Base.{
  ℕ, zero, suc, ◌*◌, ◌/◌, ◌%◌, ◌≤◌, ◌≡◌, Option, none, some, List, [], ◌∷◌, ltb, ◌==◌,
  if◌then◌else◌, arith,
}

-- `LARGELEN`, in the place of `LARGELEN / 2` as the macro is written.
abbrev pub large_len : ℕ
large_len = 20 * 1024 * 1024

abbrev pub half_len : ℕ
half_len = 20 * 1024 * 1024 / 2

-- `for (i = 0; i < n; i++) lptr[i] = i%256;`
unfoldable pub fill : (n : ℕ) → (ℕ → ℕ) → ℕ → ℕ
fill zero memory = memory
fill (suc n) memory = λ i. if i == n then n % 256 else fill n memory i

-- A line, with the bytes that the process has in the mapping when it is printed.
pub data Line : Type 0 where
  mmap_failed : Line
  before : Line
  after_use : (bytes : ℕ) → Line

-- The exit code, the lines, and the mapping at the second line, at the third and at the end.
-- `mapped` is what `mmap` gives.
pub record Outcome : Type 0 where
  pub code : ℕ
  pub lines : List Line
  pub seen : List (ℕ → ℕ)

unfoldable pub main : (mapped : Option (ℕ → ℕ)) → Outcome
unfolding fill
main none = record { code = 1; lines = mmap_failed ∷ []; seen = [] }
main (some memory) = record {
  code = 0;
  lines = before ∷ after_use half_len ∷ after_use large_len ∷ [];
  seen = memory ∷ fill half_len memory ∷ fill large_len (fill half_len memory) ∷ [];
}

-- A pass writes the bytes below its end, and no others.
pub fill-bytes :
    (n i : ℕ) (memory : ℕ → ℕ) → fill n memory i ≡ (if ltb i n then i % 256 else memory i)
unfolding fill
fill-bytes zero i memory = ground arith
fill-bytes (suc n) i memory = ground (arith, fill-bytes n i memory)

-- A second pass over what a first has written leaves what one pass would have.
pub fill-again : (m n i : ℕ) (memory : ℕ → ℕ) → m ≤ n → fill n (fill m memory) i ≡ fill n memory i
fill-again m n i memory h =
    ground (arith, fill-bytes n i (fill m memory), fill-bytes m i memory, fill-bytes n i memory)
