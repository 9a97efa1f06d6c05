-- ===== src/Zpage/User/Answers.antt =====
-- What a session of user.c is to print, against the process that it asks about.

use linux_summary.Base.{
  ℕ, zero, suc, ◌+◌, ◌-◌, ◌%◌, ◌^◌, ◌<◌, ◌≤◌, ◌≡◌, refl, ap, ap₂, sym, ◌∙◌, false, Option, none,
  some, List, [], ◌∷◌, ◌++◌, le→leb, length, take, drop, take-append, append_assoc, arith,
}
use linux_summary.Base.Int.{ℤ, pos, negsuc, efault}
use linux_summary.Base.Strto.{has_nul, c_string-nul, has_nul-nul}
use linux_summary.Zpage.{Mm, Task, Tables, Device, mmap_len, page_size}
use linux_summary.Zpage.Walk.{walk_task_page, IsPaged, walk_task_page-same}
use linux_summary.Zpage.Buffer.{concat, write_at, bytes_from, length-write_at}
use linux_summary.Zpage.Ioctl.{get_mm_info, get_vma_info, get_addr_region, mm_lines, vma_lines}
use linux_summary.Zpage.User.{
  Key, info, vmas, chars, bytes, help, space, other, Out, usage, prompt, enter_pid, enter_addr,
  result, text, hex_bytes, char_bytes, show_text, show_bytes,
}

-- What the C library makes of the driver's results.
pub record IsSyscall (syscall : ℤ → ℤ) : Type 0 where
  pub kept : (n : ℕ) → n < 2 ^ 31 → syscall (pos n) ≡ pos n
  pub error : syscall efault ≡ negsuc 0

-- The bytes of a process from an address on.
abbrev pub byte_or : Tables → (frame : ℕ → ℕ → ℕ) → ℕ → ℕ
byte_or t frame a = elim (walk_task_page t a) [ none ↦ 0 | some page ↦ frame page (a % page_size) ]

abbrev pub user_bytes : Tables → (frame : ℕ → ℕ → ℕ) → (a n : ℕ) → List ℕ
user_bytes t frame a zero = []
user_bytes t frame a (suc n) = byte_or t frame a ∷ user_bytes t frame (a + 1) n

pub bytes_from-user_bytes :
    {t : Tables} (frame : ℕ → ℕ → ℕ) (a n page : ℕ)
    → IsPaged t
    → walk_task_page t a ≡ some page
    → a % page_size + n ≤ page_size
    → bytes_from (frame page) (a % page_size) n ≡ user_bytes t frame a n
bytes_from-user_bytes frame a zero page is walked h = refl
bytes_from-user_bytes {t} frame a (suc zero) page is walked h =
    rw (user_bytes, byte_or, walked) refl
bytes_from-user_bytes {t} frame a (suc (suc n)) page is walked h =
    let same = walk_task_page-same is (a + 1) a (omega arith) in
    let next : (a + 1) % page_size ≡ a % page_size + 1 = omega arith in
    let rest = bytes_from-user_bytes frame (a + 1) (suc n) page is (same ∙ walked) (omega arith) in
    let here : frame page (a % page_size) ≡ byte_or t frame a = rw (byte_or, walked) refl in
    ap₂ ◌∷◌ here (ap (λ o. bytes_from (frame page) o (suc n)) (sym next) ∙ rest)

module _ (find : ℕ → Option Task) (frame : ℕ → ℕ → ℕ) where
  -- A region of a process, within one page that is there.
  pub record IsRegion (pid : ℕ) (mm : Mm) (start end : ℕ) : Type 0 where
    pub found : find pid ≡ some (record { mm = some mm })
    pub paged : IsPaged mm.tables
    pub page : ℕ
    pub walked : walk_task_page mm.tables start ≡ some page
    pub ordered : start ≤ end
    pub words : end < 2 ^ 64
    pub one_page : start % page_size + (end - start) < page_size

  -- What is to be printed for a key, with what it asks for in front: the text of the process's
  -- memory, of its areas, or its bytes.
  pub data Answer : Key → List Out → Type 0 where
    info_of :
        (pid : ℕ) (mm : Mm)
        → find pid ≡ some (record { mm = some mm })
        → Answer (info pid) (
            enter_pid
            ∷ result (get_mm_info pid) (pos (length (concat (mm_lines mm))))
            ∷ text (concat (mm_lines mm))
            ∷ [])
    vmas_of :
        (pid : ℕ) (mm : Mm)
        → find pid ≡ some (record { mm = some mm })
        → length (concat (vma_lines mm)) < mmap_len
        → Answer (vmas pid) (
            enter_pid
            ∷ result (get_vma_info pid) (pos (length (concat (vma_lines mm))))
            ∷ text (concat (vma_lines mm))
            ∷ [])
    bytes_of :
        (pid : ℕ) (mm : Mm) (start end : ℕ)
        → IsRegion pid mm start end
        → Answer (bytes pid start end) (
            enter_pid
            ∷ enter_addr
            ∷ enter_addr
            ∷ result (get_addr_region (some (pid, start, end))) (pos (end - start))
            ∷ hex_bytes (user_bytes mm.tables frame start (end - start + 1))
            ∷ [])
    chars_of :
        (pid : ℕ) (mm : Mm) (start end : ℕ)
        → IsRegion pid mm start end
        → Answer (chars pid start end) (
            enter_pid
            ∷ enter_addr
            ∷ enter_addr
            ∷ result (get_addr_region (some (pid, start, end))) (pos (end - start))
            ∷ char_bytes (user_bytes mm.tables frame start (end - start + 1))
            ∷ [])
    help_of : Answer help (usage ∷ [])
    other_of : Answer other (usage ∷ [])
    space_of : Answer space (prompt ∷ [])

  pub data Answers : List Key → List Out → Type 0 where
    nil : Answers [] []
    cons :
        {key : Key} {outs : List Out} {keys : List Key} {rest : List Out}
        → Answer key outs
        → Answers keys rest
        → Answers (key ∷ keys) (outs ++ rest)

  -- The device between two rounds.
  pub record Keeps (d : Device) : Type 0 where
    pub len : length d.mmap_data ≡ mmap_len
    pub same : d.frame ≡ frame

pub show_text-write :
    (ret : ℤ) (d : Device) (t : List ℕ)
    → has_nul t ≡ false
    → show_text ret (record d { mmap_data = write_at d.mmap_data 0 (t ++ 0 ∷ []) })
      ≡ some (text t ∷ [])
unfolding show_text
show_text-write ret d t h =
    let rest = drop (length (t ++ 0 ∷ [])) d.mmap_data in
    rw (show_text, append_assoc t (0 ∷ []) rest, has_nul-nul t rest, c_string-nul t rest h) refl

pub length-bytes_from : (page : ℕ → ℕ) (o n : ℕ) → length (bytes_from page o n) ≡ n
length-bytes_from page o zero = refl
length-bytes_from page o (suc n) = ap suc (length-bytes_from page (o + 1) n)

pub show_bytes-write :
    (out : List ℕ → Out) (d : Device) (bs : List ℕ) (n : ℕ)
    → length bs ≡ n
    → length d.mmap_data ≡ mmap_len
    → n ≤ mmap_len
    → show_bytes out n (record d { mmap_data = write_at d.mmap_data 0 bs }) ≡ some (out bs ∷ [])
unfolding show_bytes
show_bytes-write out d bs n size len h =
    let kept = length-write_at d.mmap_data 0 bs (omega arith) in
    let front : take n (bs ++ drop (length bs) d.mmap_data) ≡ bs =
      rw (← size) (take-append bs (drop (length bs) d.mmap_data)) in
    rw (show_bytes, le→leb n (length (write_at d.mmap_data 0 bs)) (omega (arith, kept)), front) refl
