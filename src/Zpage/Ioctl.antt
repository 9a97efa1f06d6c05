-- ===== src/Zpage/Ioctl.antt =====
-- The operations of zpage.c on its device.
use linux_summary.Base.{
  ℕ, ◌+◌, ◌-◌, ◌*◌, ◌%◌, ◌^◌, Bool, Option, none, some, List, [], ◌∷◌, ◌++◌, map, ltb, ◌==◌,
  if◌then◌else◌,
}
use linux_summary.Base.Int.{ℤ, pos, negsuc, signed32, pos_part, efault, einval, eagain}
use linux_summary.Base.Text.{codes, digits}
use linux_summary.Zpage.{
  Run, done, and_then, no_task, no_mm, no_page, beyond_page, Mm, Task, Device, mmap_len, page_size,
}
use linux_summary.Zpage.Walk.{walk_task_page}
use linux_summary.Zpage.Buffer.{append_lines, copy_loop, args_loop}

-- `%lx` and `%lu` of a 64-bit value
abbrev pub hex : ℕ → List ℕ
hex n = digits b'a' 16 16 n

abbrev pub decimal : ℕ → List ℕ
decimal n = digits b'a' 10 20 n

-- The four texts of `ZPAGE_GET_MM_INFO`.
unfoldable pub mm_lines : Mm → List (List ℕ)
mm_lines mm =
    (codes "start_stack:0x" ++ hex mm.start_stack ++ b'\n' ∷ [])
    ∷ (codes "start_code:0x"
        ++ hex mm.start_code
        ++ codes " end_code:0x"
        ++ hex mm.end_code
        ++ b'\n' ∷ [])
    ∷ (codes "start_data:0x"
        ++ hex mm.start_data
        ++ codes " end_data:0x"
        ++ hex mm.end_data
        ++ b'\n' ∷ [])
    ∷ (codes "total_vm:"
        ++ decimal mm.total_vm
        ++ codes " arg_start:0x"
        ++ hex mm.arg_start
        ++ codes " arg_end:0x"
        ++ hex mm.arg_end
        ++ b'\n' ∷ [])
    ∷ []

unfoldable pub vma_line : ℕ × ℕ → List ℕ
vma_line (start, end) =
    codes "vma start:0x" ++ hex start ++ codes " end:0x" ++ hex end ++ b'\n' ∷ []

-- The texts of `ZPAGE_GET_VMA_INFO`: a count, and one for each area.
unfoldable pub vma_lines : Mm → List (List ℕ)
unfolding vma_line
vma_lines mm = (codes "map_count:" ++ decimal mm.map_count ++ b'\n' ∷ []) ∷ map vma_line mm.mmap

-- The length that the texts have is the result of the ioctl.
unfoldable pub report : List (List ℕ) → Device → Run (ℤ × Device)
report lines d =
    and_then (append_lines lines d.mmap_data 0) (λ (b, r). done (pos r, record d { mmap_data = b }))

-- `end - start`, of type `unsigned long`.
unfoldable pub span : (start end : ℕ) → ℕ
span start end = (end + 2 ^ 64 - start) % 2 ^ 64

unfoldable pub task_get_args : Mm → Device → Run (ℤ × Device)
unfolding span
task_get_args mm d = elim (walk_task_page mm.tables mm.arg_start) [
  | none ↦ no_page
  | some page ↦
      and_then
        (args_loop (d.frame page) (mm.arg_start % page_size) (span mm.arg_start mm.arg_end + 1)
          d.mmap_data 0)
        (λ (b, r). done (pos r, record d { mmap_data = b }))
]

-- How often `for (i = 0; i < r; i++)` and `for (i = 0; i <= r; i++)` go round for an int.
abbrev pub rounds_below : ℤ → ℕ
rounds_below r = pos_part r

abbrev pub rounds_up_to : ℤ → ℕ
rounds_up_to (pos n) = n + 1
rounds_up_to (negsuc n) = 0

-- What `task_get_data` and `task_get_addr_region` have in common: n bytes are copied from an address
-- on, and r is the result.
unfoldable pub copy_region : Mm → (start n : ℕ) → ℤ → Device → Run (ℤ × Device)
copy_region mm start n r d = elim (walk_task_page mm.tables start) [
  | none ↦ no_page
  | some page ↦
      and_then (copy_loop (d.frame page) (start % page_size) 0 n d.mmap_data)
        (λ b. done (r, record d { mmap_data = b }))
]

unfoldable pub task_get_data : Mm → Device → Run (ℤ × Device)
unfolding copy_region span
task_get_data mm d =
    let r = signed32 (span mm.start_data mm.end_data % 2 ^ 32) in
    copy_region mm mm.start_data (rounds_below r) r d

unfoldable pub task_get_addr_region : Mm → (start end : ℕ) → Device → Run (ℤ × Device)
unfolding copy_region span
task_get_addr_region mm start end d =
    let r = signed32 (span start end % 2 ^ 32) in copy_region mm start (rounds_up_to r) r d

-- `*(int *)(p + offset)`, the lowest byte first.
unfoldable pub load : (ℕ → ℕ) → ℕ → ℤ
load page o =
    signed32 (page o + 256 * page (o + 1) + 65536 * page (o + 2) + 16777216 * page (o + 3))

-- `*(int *)(p + offset) = 0x12345678`
unfoldable pub store : (ℕ → ℕ) → ℕ → ℕ → ℕ
store page o i =
    if i == o
    then 0x78
    else (if i == o + 1
        then 0x56
        else (if i == o + 2 then 0x34 else (if i == o + 3 then 0x12 else page i)))

-- `ZPAGE_GET_PID_ADDR`: the word at the address is the result, and another is put in its place.
unfoldable pub exchange : Mm → ℕ → Device → Run (ℤ × Device)
unfolding load store
exchange mm addr d = elim (walk_task_page mm.tables addr) [
  | none ↦ no_page
  | some page ↦
      let o = addr % page_size in
      (if ltb (page_size - 4) o
        then beyond_page
        else done (
          load (d.frame page) o,
          record d { frame = λ q i. if q == page then store (d.frame page) o i else d.frame q i },
        ))
]

-- A command with its argument, which is `none` where `copy_from_user` fails.
pub data Command : Type 0 where
  get_mm_info get_vma_info get_pid_args get_pid_data : (pid : ℕ) → Command
  get_addr_region : Option (ℕ × ℕ × ℕ) → Command
  get_pid_addr : Option (ℕ × ℕ) → Command
  unknown : Command

-- A task's `mm` is used without a test.
abbrev pub with_mm : Task → (Mm → Device → Run (ℤ × Device)) → Device → Run (ℤ × Device)
with_mm t f d = elim t.mm [ none ↦ no_mm | some mm ↦ f mm d ]

-- Three commands test the task that `pid_task` gives, the others do not.
abbrev pub tested : Option Task → (Mm → Device → Run (ℤ × Device)) → Device → Run (ℤ × Device)
tested none f d = done (efault, d)
tested (some t) f d = with_mm t f d

abbrev pub untested : Option Task → (Mm → Device → Run (ℤ × Device)) → Device → Run (ℤ × Device)
untested none f d = no_task
untested (some t) f d = with_mm t f d

-- `find` is what `pid_task` gives for a pid.
unfoldable pub my_ioctl : (find : ℕ → Option Task) → Command → Device → Run (ℤ × Device)
unfolding report task_get_args task_get_data task_get_addr_region exchange
my_ioctl find (get_mm_info pid) d = tested (find pid) (λ mm. report (mm_lines mm)) d
my_ioctl find (get_vma_info pid) d = tested (find pid) (λ mm. report (vma_lines mm)) d
my_ioctl find (get_pid_args pid) d = tested (find pid) task_get_args d
my_ioctl find (get_pid_data pid) d = untested (find pid) task_get_data d
my_ioctl find (get_addr_region none) d = done (efault, d)
my_ioctl find (get_addr_region (some (pid, start, end))) d =
    untested (find pid) (λ mm. task_get_addr_region mm start end) d
my_ioctl find (get_pid_addr none) d = done (efault, d)
my_ioctl find (get_pid_addr (some (pid, addr))) d = untested (find pid) (λ mm. exchange mm addr) d
my_ioctl find unknown d = done (efault, d)

-- `mmap` of the device: the bytes from `vm_start` that are mapped to `mmap_data`, and the result.
unfoldable pub my_mmap : (vm_start vm_end : ℕ) (remaps : Bool) → Option (ℕ × ℕ) × ℤ
my_mmap vm_start vm_end remaps =
    if ltb mmap_len (vm_end - vm_start)
    then (none, einval)
    else (if remaps then (some (vm_start, mmap_len), pos 0) else (none, eagain))
