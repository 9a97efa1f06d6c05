-- ===== src/Dram.antt =====
-- The driver src/kernel/linux_memory/mm_addr/dram.c: physical memory as a file that is read page by
-- page.
pub mod Read
pub mod Seek
pub mod View
mod Tests
use linux_summary.Base.{
  ℕ, zero, suc, ◌+◌, ◌-◌, ◌*◌, ◌/◌, ◌%◌, ◌^◌, List, [], ◌∷◌, ◌||◌, ltb, leb, ◌==◌, if◌then◌else◌,
}
use linux_summary.Base.Int.{ℤ, pos, negsuc, ◌+ℤ◌, ltb_ℤ, signed32, wrap64, efault, einval}

abbrev pub page_size : ℕ
page_size = 4096

-- `dram_size`, and what the kernel maps for a page number: the byte at each offset from its start.
pub record Dram : Type 0 where
  pub size : ℕ
  pub frame : ℤ → ℕ → ℕ

-- `dram_init`: the pages that the kernel counts, in bytes.
unfoldable pub dram_size : ℕ → ℕ
dram_size pages = pages * 2 ^ 12

abbrev pub my_major : ℕ
my_major = 85

-- `dram_init` with the result of `register_chrdev`: the size of the memory, the result, and the
-- numbers that are registered.
unfoldable pub dram_init : (pages : ℕ) (registered : ℤ) → List ℕ → ℕ × ℤ × List ℕ
unfolding dram_size
dram_init pages registered majors =
    (dram_size pages, registered, if ltb_ℤ registered (pos 0) then majors else my_major ∷ majors)

unfoldable pub dram_exit : List ℕ → List ℕ
dram_exit [] = []
dram_exit (major ∷ majors) =
    let rest = dram_exit majors in if major == my_major then majors else major ∷ rest

-- What a read leaves: its result, the bytes that reached the user, and the file position.
pub record Reply : Type 0 where
  pub ret : ℤ
  pub bytes : List ℕ
  pub pos_after : ℕ

-- The bytes from an offset of a mapped page on.
unfoldable pub bytes_from : (ℕ → ℕ) → (offset n : ℕ) → List ℕ
bytes_from page offset zero = []
bytes_from page offset (suc n) = page offset ∷ bytes_from page (offset + 1) n

-- `int page_number = *pos / PAGE_SIZE`
unfoldable pub page_number : ℕ → ℤ
page_number p = signed32 (p / page_size % 2 ^ 32)

-- How much is copied: no further than the mapped page. The sum is of type `size_t`.
unfoldable pub in_page : (indent count : ℕ) → ℕ
in_page indent count =
    if ltb page_size ((indent + count) % 2 ^ 64) then page_size - indent else count

-- `more` is what `copy_to_user` leaves uncopied.
unfoldable pub my_read : Dram → (more count p : ℕ) → Reply
unfolding bytes_from page_number in_page
my_read dram more count p =
    let n = in_page (p % page_size) count in
    let page = dram.frame (page_number p) in
    if leb dram.size p
    then record { ret = pos 0; bytes = []; pos_after = p }
    else (if more == 0
        then record { ret = pos n; bytes = bytes_from page (p % page_size) n; pos_after = p + n }
        else record {
          ret = efault;
          bytes = bytes_from page (p % page_size) (n - more);
          pos_after = p;
        })

-- The switch on `whence`; -1 for any other value.
unfoldable pub new_position : Dram → (f_pos offset : ℤ) → ℕ → ℤ
unfolding ◌+ℤ◌
new_position dram f_pos offset whence =
    if whence == 0
    then offset
    else (if whence == 1
        then wrap64 (f_pos +ℤ offset)
        else (if whence == 2 then wrap64 (pos dram.size +ℤ offset) else negsuc 0))

-- The result, and `file->f_pos`.
unfoldable pub my_llseek : Dram → (f_pos offset : ℤ) → ℕ → ℤ × ℤ
my_llseek dram f_pos offset whence =
    let p = new_position dram f_pos offset whence in
    if ltb_ℤ p (pos 0) || ltb_ℤ (pos dram.size) p then (einval, f_pos) else (p, p)
