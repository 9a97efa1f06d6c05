-- ===== src/Dram/Tests.antt =====
-- The theorems on dram.c at a memory of two pages.
use linux_summary.Base.{ℕ, ◌+◌, ◌^◌, ◌≤◌, ◌≡◌, ◌-◌, ◌*◌, refl, [], ◌∷◌, ◌++◌, min, replicate, arith}
use linux_summary.Base.Int.{pos, pos_part, ◌+ℤ◌}
use linux_summary.Dram.{Dram, my_read, my_llseek, in_page}
use linux_summary.Dram.View.{dram_file, fill-memory}
use linux_summary.Fileview.Fill.{read, fill}
use linux_summary.Dram.Read.{memory, read_all, read_all-memory}
use linux_summary.Dram.Seek.{base, seek_to, my_llseek_lem}

abbrev two_pages : Dram
two_pages = record { size = 8192; frame = λ q o. pos_part q * 4096 + o }

-- The sum of type `size_t` wraps for a count near 2 ^ 64, and the count is not cut to the page.
in_page_wraps : in_page 1 (2 ^ 64 - 1) ≡ 2 ^ 64 - 1
unfolding in_page
in_page_wraps = refl

read_all-memory_example :
    (n : ℕ) × (read_all two_pages (100 ∷ 100 ∷ 5000 ∷ []) 4090
      ≡ (memory two_pages 4090 n, 4090 + n))
    × (4090 + n ≤ 8192)
read_all-memory_example =
    read_all-memory two_pages (100 ∷ 100 ∷ 5000 ∷ []) 4090 (omega arith) refl (omega arith)
      (omega arith)

my_llseek_lem_example :
    my_llseek two_pages (pos 100) (pos (2 ^ 63 - 1)) 1
    ≡ seek_to two_pages (pos 100) (base two_pages (pos 100) 1 +ℤ pos (2 ^ 63 - 1))
my_llseek_lem_example =
    my_llseek_lem two_pages (pos 100) (pos (2 ^ 63 - 1)) 1 (omega arith) (omega arith) (omega arith)
      (omega arith) (omega arith) (omega arith)

fill-memory_example :
    (read (dram_file two_pages) 4090 100 ≡ (my_read two_pages 0 100 4090).bytes)
    × (my_llseek two_pages (pos 16) (pos 0) 2 ≡ (pos 8192, pos 8192))
    × (my_llseek two_pages (pos 16) (pos 4090) 0 ≡ (pos 4090, pos 4090))
    × (let n = min 256 (8192 - 4090) in
        fill (dram_file two_pages) 4090 ≡ memory two_pages 4090 n ++ replicate (256 - n) 0xFF)
fill-memory_example =
    fill-memory two_pages (omega arith) refl 16 4090 100 (omega arith) (omega arith)
