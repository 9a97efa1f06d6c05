-- ===== src/Procfs/Zproc.antt =====
-- src/kernel/procfs/zproc.c
use linux_summary.Base.{
  ℕ, zero, suc, ◌+◌, ◌-◌, ◌*◌, ◌/◌, ◌%◌, ◌^◌, ◌≤◌, ◌<◌, ◌≡◌, refl, ap, sym, ap₂, ◌∙◌, false, Option,
  none, some, List, ltb, if◌then◌else◌, length, arith, le→ltb, lt→ltb,
}
use linux_summary.Base.Int.{ℤ, pos, negsuc}
use linux_summary.Procfs.{Input, msg_len, write_number}
use linux_summary.Procfs.Write.{IsText, parsed_or, write_number-short, write_number-long}

pub record State : Type 0 where
  pub pid : ℤ
  pub phys : ℤ

-- `struct mm_struct`: the numbers that `mminfo_show` reads of it.
pub record Mm : Type 0 where
  pub map_count : ℕ
  pub numbers : List ℕ

-- What `mminfo_show` reads of a task: its name and its `active_mm`, which is NULL for a thread of
-- the kernel that has borrowed none.
pub record Task : Type 0 where
  pub comm : ℕ
  pub active_mm : Option Mm

-- What is printed.
pub data Line : Type 0 where
  pid_only find_task_error : ℤ → Line
  mminfo : ℤ → (comm : ℕ) → Mm → Line
  pfn_to_page_error : ℤ → Line
  value_at : ℤ → ℕ → Line

-- From `mm = task->active_mm` on; `none` where the NULL is read.
abbrev pub mm_lines : ℤ → Task → Option Line
mm_lines pid task = elim task.active_mm [ none ↦ none | some mm ↦ some (mminfo pid task.comm mm) ]

unfoldable pub mminfo_show : (ℤ → Option Task) → State → Option Line
mminfo_show find s = elim s.pid [
  | pos zero ↦ some (pid_only s.pid)
  | p ↦ (elim (find p) [ none ↦ some (find_task_error p) | some t ↦ mm_lines p t ])
]

unfoldable pub mminfo_write : (List ℕ → ℕ → Option ℤ) → Input → State → Option (ℤ × State)
mminfo_write kstrtol i s = elim (write_number kstrtol 10 i s.pid) [
  | none ↦ none
  | some (ret, v) ↦ some (ret, record s { pid = v })
]

unfoldable pub phys_value_write : (List ℕ → ℕ → Option ℤ) → Input → State → Option (ℤ × State)
phys_value_write kstrtol i s = elim (write_number kstrtol 16 i s.phys) [
  | none ↦ none
  | some (ret, v) ↦ some (ret, record s { phys = v })
]

-- `(unsigned long)phys`
abbrev pub unsigned : ℤ → ℕ
unsigned (pos n) = n % 2 ^ 64
unsigned (negsuc n) = 2 ^ 64 - 1 - n % 2 ^ 64

abbrev pub page_size : ℕ
page_size = 4096

-- The `n` bytes from an offset on, as a number, the lowest byte first.
unfoldable pub word_at : (ℕ → ℕ) → (offset n : ℕ) → ℕ
word_at page offset zero = 0
word_at page offset (suc n) = page offset + 256 * word_at page (offset + 1) n

-- `frame` is what `kmap` maps for a page; `none` where the eight bytes leave the page.
unfoldable pub phys_value_show :
    (pfn_to_page : ℕ → Option ℕ) → (frame : ℕ → ℕ → ℕ) → State → Option Line
unfolding word_at
phys_value_show pfn_to_page frame s = elim (pfn_to_page (unsigned s.phys / page_size)) [
  | none ↦ some (pfn_to_page_error s.phys)
  | some pg ↦
      let page_off = unsigned s.phys % page_size in
      (if ltb (page_size - 8) page_off
        then none
        else some (value_at s.phys (word_at (frame pg) page_off 8)))
]

-- The byte at a physical address.
abbrev pub memory : (ℕ → Option ℕ) → (ℕ → ℕ → ℕ) → ℕ → ℕ
memory pfn_to_page frame a = elim (pfn_to_page (a / page_size)) [
  | none ↦ 0
  | some pg ↦ frame pg (a % page_size)
]

pub word_at-memory :
    (pfn_to_page : ℕ → Option ℕ) (frame : ℕ → ℕ → ℕ) (a n pg : ℕ)
    → pfn_to_page (a / page_size) ≡ some pg
    → a % page_size + n ≤ page_size
    → word_at (memory pfn_to_page frame) a n ≡ word_at (frame pg) (a % page_size) n
unfolding word_at
word_at-memory pfn_to_page frame a zero pg e h = refl
word_at-memory pfn_to_page frame a (suc zero) pg e h = rw (memory, e) refl
word_at-memory pfn_to_page frame a (suc (suc n)) pg e h =
    let here : memory pfn_to_page frame a ≡ frame pg (a % page_size) = rw (memory, e) refl in
    let same : (a + 1) / page_size ≡ a / page_size = omega arith in
    let next : (a + 1) % page_size ≡ a % page_size + 1 = omega arith in
    let rest =
      word_at-memory pfn_to_page frame (a + 1) (suc n) pg (ap pfn_to_page same ∙ e) (omega arith) in
    ap₂ (λ x y. x + 256 * y) here (rest ∙ ap (λ o. word_at (frame pg) o (suc n)) next)

-- A text with an address, written and then read: while it is shorter than 32 characters, the bytes
-- shown are the eight bytes of physical memory from the address on, if they are in one page that is
-- there, and the read leaves the page if they are not. From 32 characters on the write reads beyond
-- `msg`.
pub phys_value_write-show :
    (kstrtol : List ℕ → ℕ → Option ℤ) (pfn_to_page : ℕ → Option ℕ) (frame : ℕ → ℕ → ℕ)
    (text : List ℕ) (a pg : ℕ) (s : State)
    → IsText text
    → kstrtol text 16 ≡ some (pos a)
    → a < 2 ^ 63
    → pfn_to_page (a / page_size) ≡ some pg
    → let i : Input = record { count = length text; bytes = text; fails = false } in
      (length text < msg_len
        → (s' : State) × (phys_value_write kstrtol i s ≡ some (pos (length text), s'))
          × (s'.pid ≡ s.pid)
          × (a % page_size + 8 ≤ page_size
              → phys_value_show pfn_to_page frame s'
                ≡ some (value_at (pos a) (word_at (memory pfn_to_page frame) a 8)))
          × (page_size < a % page_size + 8 → phys_value_show pfn_to_page frame s' ≡ none))
      × (msg_len ≤ length text → phys_value_write kstrtol i s ≡ none)
unfolding phys_value_write phys_value_show
phys_value_write-show kstrtol pfn_to_page frame text a pg s h parsed small there =
    let whole : unsigned (pos a) ≡ a = omega arith in
    (
      λ short. (
        record s { phys = pos a },
        rw (phys_value_write, write_number-short kstrtol 16 text s.phys h short, parsed_or, parsed)
            refl,
        refl,
        λ fits.
            rw
              (
                phys_value_show,
                whole,
                there,
                whole,
                le→ltb (page_size - 8) (a % page_size) (omega arith),
              )
              (ap (λ w. some (value_at (pos a) w))
                (sym (word_at-memory pfn_to_page frame a 8 pg there fits))),
        λ crosses.
            rw
              (
                phys_value_show,
                whole,
                there,
                whole,
                lt→ltb (page_size - 8) (a % page_size) (omega arith),
              )
              refl,
      ),
      λ long. rw (phys_value_write, write_number-long kstrtol 16 text s.phys h long) refl,
    )

-- A text written to mminfo and then read, while it is shorter than 32 characters: the write
-- returns its length, whether it is a number or not. The file then shows the task of that number,
-- or that there is none, for a number other than 0; for a task without an `active_mm` it reads
-- through NULL. A text that is no number leaves the process that was shown before.
pub mminfo_write-show :
    (kstrtol : List ℕ → ℕ → Option ℤ) (find : ℤ → Option Task) (text : List ℕ) (s : State)
    → IsText text
    → length text < msg_len
    → let i : Input = record { count = length text; bytes = text; fails = false } in
      (s' : State) × (mminfo_write kstrtol i s ≡ some (pos (length text), s'))
      × ((n : ℕ) (t : Task) (mm : Mm)
          → kstrtol text 10 ≡ some (pos (suc n))
          → find (pos (suc n)) ≡ some t
          → t.active_mm ≡ some mm
          → mminfo_show find s' ≡ some (mminfo (pos (suc n)) t.comm mm))
      × ((n : ℕ) (t : Task)
          → kstrtol text 10 ≡ some (pos (suc n))
          → find (pos (suc n)) ≡ some t
          → t.active_mm ≡ none
          → mminfo_show find s' ≡ none)
      × ((n : ℕ)
          → kstrtol text 10 ≡ some (pos (suc n))
          → find (pos (suc n)) ≡ none
          → mminfo_show find s' ≡ some (find_task_error (pos (suc n))))
      × (kstrtol text 10 ≡ none → mminfo_show find s' ≡ mminfo_show find s)
unfolding mminfo_write mminfo_show
mminfo_write-show kstrtol find text s h short = (
  record s { pid = parsed_or kstrtol 10 text s.pid },
  rw (mminfo_write, write_number-short kstrtol 10 text s.pid h short) refl,
  λ n t mm parsed found there. rw (mminfo_show, parsed_or, parsed, found, there) refl,
  λ n t parsed found gone. rw (mminfo_show, parsed_or, parsed, found, gone) refl,
  λ n parsed gone. rw (mminfo_show, parsed_or, parsed, gone) refl,
  λ bad. ap (λ p. mminfo_show find (record s { pid = p })) (rw (parsed_or, bad) refl),
)
