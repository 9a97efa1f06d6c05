-- ===== src/Dram/View.antt =====
-- The viewer fileview.c on the device of dram.c: what its buffer shows of the physical memory.

use linux_summary.Base.{
  ℕ, zero, suc, ◌+◌, ◌-◌, ◌*◌, ◌/◌, ◌%◌, ◌^◌, ◌≤◌, ◌<◌, min, ◌≡◌, refl, ap, ap₂, sym, ◌∙◌, List, [],
  ◌∷◌, ◌++◌, ltb, if◌then◌else◌, length, take, drop, take-nil, drop-nil, replicate, arith, dec_lt,
  Bool-cases, inl, inr, true, false,
}
use linux_summary.Base.Int.{ℤ, pos}
use linux_summary.Dram.{Dram, page_size, my_read, new_position, my_llseek}
use linux_summary.Dram.Read.{byte_at, memory, portion, my_read_lem}
use linux_summary.Fileview.Fill.{File, IsFile, read, fill, fill_lem}

-- The device as the viewer reads it: its bytes, and how many of them a read hands over.
unfoldable pub dram_file : Dram → File
dram_file dram = record {
  contents = memory dram 0 dram.size;
  chunk = λ o ask. if ltb o dram.size then portion ask o else 0;
}

length-memory : (dram : Dram) (a n : ℕ) → length (memory dram a n) ≡ n
length-memory dram a zero = refl
length-memory dram a (suc n) = ap suc (length-memory dram (a + 1) n)

memory_none : (dram : Dram) (a n : ℕ) → n ≡ 0 → memory dram a n ≡ []
memory_none dram a zero h = refl
memory_none dram a (suc n) h = absurd (omega (arith, h))

drop-memory : (dram : Dram) (k a n : ℕ) → drop k (memory dram a n) ≡ memory dram (a + k) (n - k)
drop-memory dram zero a n = ap₂ (memory dram) (omega arith) (omega arith)
drop-memory dram (suc k) a zero = sym (memory_none dram (a + suc k) (0 - suc k) (omega arith))
drop-memory dram (suc k) a (suc n) =
    drop-memory dram k (a + 1) n ∙ ap₂ (memory dram) (omega arith) (omega arith)

take-memory : (dram : Dram) (k a n : ℕ) → take k (memory dram a n) ≡ memory dram a (min k n)
take-memory dram zero a n = sym (memory_none dram a (min 0 n) (omega arith))
take-memory dram (suc k) a zero = sym (memory_none dram a (min (suc k) 0) (omega arith))
take-memory dram (suc k) a (suc n) =
    let more : suc (min k n) ≡ min (suc k) (suc n) = omega arith in
    ap (λ l. byte_at dram a ∷ l) (take-memory dram k (a + 1) n) ∙ ap (memory dram a) more

slice-memory :
    (dram : Dram) (k o n : ℕ) → take k (drop o (memory dram 0 n)) ≡ memory dram o (min k (n - o))
slice-memory dram k o n =
    ap (take k) (drop-memory dram o 0 n)
    ∙ take-memory dram k (0 + o) (n - o)
    ∙ ap (λ a. memory dram a (min k (n - o))) (omega arith)

module _ (dram : Dram) (small : dram.size ≤ 2 ^ 43) (whole : dram.size % page_size ≡ 0) where
  dram_file-IsFile : IsFile (dram_file dram)
  unfolding dram_file
  dram_file-IsFile = record {
    asked = λ o ask. ground arith;
    left = λ o ask. ground (arith, length-memory dram 0 dram.size);
    some_bytes = λ o ask h before. ground (arith, length-memory dram 0 dram.size);
  }

  read-my_read :
      (o ask : ℕ) → ask < 2 ^ 63 → read (dram_file dram) o ask ≡ (my_read dram 0 ask o).bytes
  unfolding read dram_file
  read-my_read o ask h = elim (dec_lt o dram.size) [
    | yes inside ↦
        let before : ltb o dram.size ≡ true = ground arith in
        let reads = (my_read_lem dram 0 ask o small h).1 inside in
        rw (read, dram_file, before)
          (slice-memory dram (portion ask o) o dram.size
            ∙ ap (memory dram o) (omega arith)
            ∙ sym reads.bytes)
    | no past ↦
        let behind : ltb o dram.size ≡ false = ground arith in
        let reads = (my_read_lem dram 0 ask o small h).0 (omega arith) in
        rw (read, dram_file, behind, reads) refl
  ]

  -- In a memory of whole pages, of at most 2 ^ 43 bytes: the viewer's `read` on the device is the
  -- driver's, `lseek` finds the end and every position up to it, and the buffer that the viewer
  -- fills for a position holds the physical memory from there on, up to 256 bytes or the end of
  -- the memory, and ~0 behind, though the driver's reads end with each page.
  pub fill-memory :
      (f_pos position ask : ℕ)
      → position ≤ dram.size
      → ask < 2 ^ 63
      → (read (dram_file dram) position ask ≡ (my_read dram 0 ask position).bytes)
        × (my_llseek dram (pos f_pos) (pos 0) 2 ≡ (pos dram.size, pos dram.size))
        × (my_llseek dram (pos f_pos) (pos position) 0 ≡ (pos position, pos position))
        × (let n = min 256 (dram.size - position) in
            fill (dram_file dram) position ≡ memory dram position n ++ replicate (256 - n) 0xFF)
  unfolding my_llseek new_position dram_file linux_summary.Base.Int.◌+ℤ◌
  fill-memory f_pos position ask within h = (
    read-my_read position ask h,
    ground arith,
    ground arith,
    let n = min 256 (dram.size - position) in
        let shown = slice-memory dram 256 position dram.size in
        (fill_lem dram_file-IsFile position).0
        ∙ ap (λ bytes. bytes ++ replicate (256 - length bytes) 0xFF) shown
        ∙ ap (λ k. memory dram position n ++ replicate (256 - k) 0xFF)
            (length-memory dram position n),
  )
