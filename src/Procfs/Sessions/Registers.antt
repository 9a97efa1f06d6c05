-- ===== src/Procfs/Sessions/Registers.antt =====
-- What the files of zproc.c promise over sequences of calls.
use linux_summary.Base.{
  ℕ, zero, suc, ◌-◌, ◌/◌, ◌%◌, ◌<◌, ◌≡◌, refl, ap, ap₂, sym, ◌∙◌, Bool, true, false, Option, none,
  some, List, [], ◌∷◌, length, ltb, if◌then◌else◌, arith, Bool-cases, inl, inr,
}
use linux_summary.Base.Int.{ℤ, pos, negsuc, efault}
use linux_summary.Procfs.{msg_len, write_number}
use linux_summary.Procfs.Write.{IsText, parsed_or, write_number-short}
use linux_summary.Procfs.Zproc.{
  State, Task, Line, pid_only, find_task_error, mminfo, pfn_to_page_error, value_at, mminfo_show,
  mminfo_write, phys_value_write, phys_value_show, unsigned, page_size, word_at, memory,
  word_at-memory,
}
use linux_summary.Procfs.Buddy.{node0_show}
use linux_summary.Procfs.Sessions.{
  Kernel, Result, wrote, line, rows, fault, or_fault, Op, write_mminfo, write_phys, read_mminfo,
  read_phys, read_buddy, input, written, session,
}

-- What the files promise: each holds the number of the last text that was one, whatever is done
-- with the others.
abbrev pub held : Kernel → (base : ℕ) → List ℕ → Bool → ℤ → ℤ
held k base text true v = v
held k base text false v = parsed_or k.kstrtol base text v

abbrev pub answer : List ℕ → Bool → ℤ
answer text true = efault
answer text false = pos (length text)

-- What mminfo shows of the process that it holds.
abbrev pub of_task : ℤ → Option Task → Result
of_task pid none = line (find_task_error pid)
of_task pid (some t) = elim t.active_mm [ none ↦ fault | some mm ↦ line (mminfo pid t.comm mm) ]

abbrev pub process_result : (ℤ → Option Task) → ℤ → Result
process_result find (pos zero) = line (pid_only (pos 0))
process_result find (pos (suc n)) = of_task (pos (suc n)) (find (pos (suc n)))
process_result find (negsuc n) = of_task (negsuc n) (find (negsuc n))

-- What physvalue shows of the physical memory from an address on: eight bytes of one page.
abbrev pub memory_line : Kernel → ℤ → Result
memory_line k v =
    let a = unsigned v in
    elim (k.pfn_to_page (a / page_size)) [
      | none ↦ line (pfn_to_page_error v)
      | some pg ↦
          (if ltb (page_size - 8) (a % page_size)
            then fault
            else line (value_at v (word_at (memory k.pfn_to_page k.frame) a 8)))
    ]

abbrev pub promised : Kernel → List Op → (pid phys : ℤ) → List Result
promised k [] pid phys = []
promised k (write_mminfo text fails ∷ ops) pid phys =
    wrote (answer text fails) ∷ promised k ops (held k 10 text fails pid) phys
promised k (write_phys text fails ∷ ops) pid phys =
    wrote (answer text fails) ∷ promised k ops pid (held k 16 text fails phys)
promised k (read_mminfo ∷ ops) pid phys = process_result k.find pid ∷ promised k ops pid phys
promised k (read_phys ∷ ops) pid phys = memory_line k phys ∷ promised k ops pid phys
promised k (read_buddy ∷ ops) pid phys =
    rows (node0_show k.node_id k.zones) ∷ promised k ops pid phys

-- Every text is shorter than `msg`, and has no NUL.
abbrev pub AllShort : List Op → Type 0
AllShort [] = Unit
AllShort (write_mminfo text fails ∷ ops) = IsText text × (length text < msg_len) × AllShort ops
AllShort (write_phys text fails ∷ ops) = IsText text × (length text < msg_len) × AllShort ops
AllShort (_ ∷ ops) = AllShort ops

write_number-held :
    (k : Kernel) (base : ℕ) (text : List ℕ) (fails : Bool) (v : ℤ)
    → IsText text
    → length text < msg_len
    → write_number k.kstrtol base (input text fails) v
      ≡ some (answer text fails, held k base text fails v)
unfolding write_number
write_number-held k base text true v t short = refl
write_number-held k base text false v t short = write_number-short k.kstrtol base text v t short

mminfo_show-line :
    (find : ℤ → Option Task) (pid phys : ℤ)
    → or_fault (mminfo_show find (record { pid = pid; phys = phys })) ≡ process_result find pid
unfolding mminfo_show
mminfo_show-line find (pos zero) phys = refl
mminfo_show-line find (pos (suc n)) phys = ground arith
mminfo_show-line find (negsuc n) phys = ground arith

-- The line of an address whose page is there.
page_line :
    (k : Kernel) (v : ℤ) (a pg : ℕ)
    → k.pfn_to_page (a / page_size) ≡ some pg
    → (if ltb (page_size - 8) (a % page_size)
        then none
        else some (value_at v (word_at (k.frame pg) (a % page_size) 8)))
      ≡ (if ltb (page_size - 8) (a % page_size)
          then none
          else some (value_at v (word_at (memory k.pfn_to_page k.frame) a 8)))
page_line k v a pg there = elim (Bool-cases (ltb (page_size - 8) (a % page_size))) [
  | inl crosses ↦ rw crosses refl
  | inr fits ↦ rw fits (
      ap (λ w. some (value_at v w))
        (sym (word_at-memory k.pfn_to_page k.frame a 8 pg there (ground arith))))
]

or_fault-if :
    (b : Bool) (l : Line) → or_fault (if b then none else some l) ≡ (if b then fault else line l)
or_fault-if true l = refl
or_fault-if false l = refl

phys_value_show-line :
    (k : Kernel) (s : State)
    → or_fault (phys_value_show k.pfn_to_page k.frame s) ≡ memory_line k s.phys
unfolding phys_value_show
phys_value_show-line k s = go (unsigned s.phys) (k.pfn_to_page (unsigned s.phys / page_size)) refl
  where
    go :
        (a : ℕ) (r : Option ℕ)
        → k.pfn_to_page (a / page_size) ≡ r
        → or_fault (elim r as (λ _. Option Line) [
          | none ↦ some (pfn_to_page_error s.phys)
          | some pg ↦
              (if ltb (page_size - 8) (a % page_size)
                then none
                else some (value_at s.phys (word_at (k.frame pg) (a % page_size) 8)))
        ])
          ≡ elim r as (λ _. Result) [
            | none ↦ line (pfn_to_page_error s.phys)
            | some pg ↦
                (if ltb (page_size - 8) (a % page_size)
                  then fault
                  else line (value_at s.phys (word_at (memory k.pfn_to_page k.frame) a 8)))
          ]
    go a none e = refl
    go a (some pg) e =
        ap or_fault (page_line k s.phys a pg e)
        ∙ or_fault-if (ltb (page_size - 8) (a % page_size))
            (value_at s.phys (word_at (memory k.pfn_to_page k.frame) a 8))

-- For texts shorter than `msg`, written to mminfo and physvalue in whatever order, with whatever
-- is read of the three files in between: each write answers the text's length, or EFAULT where
-- the copy fails. Each read of mminfo shows the process of the last number written to it, or
-- reads through NULL where that process has no `active_mm`, and each read of physvalue the eight
-- bytes of physical memory at the last address written to it, or leaves the page where they are
-- not in one; a text that is no number, a copy that fails and all that is done with the other
-- files change nothing of this.
pub session-promised :
    (k : Kernel) (ops : List Op) (s : State)
    → AllShort ops
    → session k ops s ≡ promised k ops s.pid s.phys
unfolding session
session-promised k [] s h = refl
session-promised k (write_mminfo text fails ∷ ops) s (t, short, h) =
    let s' : State = record s { pid = held k 10 text fails s.pid } in
    let w : mminfo_write k.kstrtol (input text fails) s ≡ some (answer text fails, s') =
      unfold mminfo_write in
      rw (mminfo_write, write_number-held k 10 text fails s.pid t short) refl in
    ap (λ r. written r (session k ops)) w
    ∙ ap (λ rs. wrote (answer text fails) ∷ rs) (session-promised k ops s' h)
session-promised k (write_phys text fails ∷ ops) s (t, short, h) =
    let s' : State = record s { phys = held k 16 text fails s.phys } in
    let w : phys_value_write k.kstrtol (input text fails) s ≡ some (answer text fails, s') =
      unfold phys_value_write in
      rw (phys_value_write, write_number-held k 16 text fails s.phys t short) refl in
    ap (λ r. written r (session k ops)) w
    ∙ ap (λ rs. wrote (answer text fails) ∷ rs) (session-promised k ops s' h)
session-promised k (read_mminfo ∷ ops) s h =
    ap₂ (λ r rs. r ∷ rs) (mminfo_show-line k.find s.pid s.phys) (session-promised k ops s h)
session-promised k (read_phys ∷ ops) s h =
    ap₂ (λ r rs. r ∷ rs) (phys_value_show-line k s) (session-promised k ops s h)
session-promised k (read_buddy ∷ ops) s h =
    ap (λ rs. rows (node0_show k.node_id k.zones) ∷ rs) (session-promised k ops s h)
