-- ===== src/Zpage/Tests.antt =====
-- The theorems on zpage.c at a process of two areas.
use linux_summary.Base.{
  ℕ, ◌+◌, ◌-◌, ◌/◌, ◌%◌, ◌≤◌, ◌<◌, ◌≡◌, refl, ap, true, false, Option, none, some, [], ◌∷◌, ◌++◌,
  ◌==◌, if◌then◌else◌, length, replicate, length-replicate, get_elem?, arith,
}
use linux_summary.Base.Int.{ℤ, pos, negsuc}
use linux_summary.Zpage.{
  done, and_then, no_task, beyond_page, beyond_buffer, Entry, Tables, Mm, Task, Device, mmap_len,
  page_size,
}
use linux_summary.Zpage.Walk.{walk_task_page, IsPaged}
use linux_summary.Zpage.Buffer.{concat}
use linux_summary.Zpage.Ioctl.{
  get_mm_info, get_vma_info, get_addr_region, get_pid_data, my_ioctl, mm_lines, vma_lines, load,
}
use linux_summary.Zpage.Module.{my_init, my_exit}
use linux_summary.Zpage.UserCmd
use linux_summary.Zpage.UserCmd.{printed, written, main-twice}
use linux_summary.Zpage.User.{
  is_minus_one, info, bytes, help, quit, usage, prompt, enter_pid, enter_addr, result, text,
  hex_bytes, finished, failed, main,
}
use linux_summary.Zpage.User.Answers.{
  IsSyscall, Answers, nil, cons, info_of, bytes_of, help_of, user_bytes,
}
use linux_summary.Zpage.User.Session.{main-Answers}
use linux_summary.Zpage.Report.{shown, my_ioctl-vma_info}
use linux_summary.Zpage.Region.{user_byte, my_ioctl-region}

abbrev present : ℕ → Entry
present table = record { is_none = false; is_bad = false; table = table }

-- Every page is there, and its number is that of the address.
abbrev flat : Tables
flat = record {
  pgd_offset = λ addr. present 1;
  pud_offset = λ table addr. present 2;
  pmd_offset = λ table addr. present 3;
  pte_offset_map = λ table addr. some (addr / page_size);
  pte_page = λ pte. some pte;
}

flat-IsPaged : IsPaged flat
flat-IsPaged = record {
  pgd = λ a b h. refl;
  pud = λ n a b h. refl;
  pmd = λ n a b h. refl;
  pte = λ n a b h. ap (λ k. some k) h;
}

abbrev mm : Mm
mm = record {
  tables = flat;
  start_stack = 0x7ffe0000;
  start_code = 0x400000;
  end_code = 0x401000;
  start_data = 0x600000;
  end_data = 0x600010;
  total_vm = 2;
  arg_start = 0x5008;
  arg_end = 0x500a;
  map_count = 2;
  mmap = (0x400000, 0x401000) ∷ (0x600000, 0x601000) ∷ [];
}

abbrev find : ℕ → Option Task
find pid = if pid == 7 then some (record { mm = some mm }) else none

abbrev device : Device
device = record { mmap_data = replicate mmap_len 0; frame = λ page offset. offset % 256 }

length-device : length device.mmap_data ≡ mmap_len
length-device = length-replicate {A = ℕ} mmap_len 0

-- Three of the commands use the task that is not there.
my_ioctl-no_task : my_ioctl find (get_pid_data 8) device ≡ no_task
unfolding my_ioctl
my_ioctl-no_task = refl

my_ioctl-vma_info_example :
    (length (concat (vma_lines mm)) < mmap_len
      → my_ioctl find (get_vma_info 7) device ≡ shown (concat (vma_lines mm)) device)
    × (mmap_len ≤ length (concat (vma_lines mm))
        → my_ioctl find (get_vma_info 7) device ≡ beyond_buffer)
    × (length mm.mmap ≤ 78 → length (concat (vma_lines mm)) < mmap_len)
my_ioctl-vma_info_example = my_ioctl-vma_info find 7 mm device refl length-device

my_ioctl-region_example :
    (0x5008 % page_size + (0x5010 - 0x5008) < page_size
      → (d' : Device) × (my_ioctl find (get_addr_region (some (7, 0x5008, 0x5010))) device
          ≡ done (pos (0x5010 - 0x5008), d'))
        × ((i : ℕ)
            → i ≤ 0x5010 - 0x5008
            → get_elem? d'.mmap_data i ≡ user_byte mm device (0x5008 + i)))
    × (page_size ≤ 0x5008 % page_size + (0x5010 - 0x5008)
        → my_ioctl find (get_addr_region (some (7, 0x5008, 0x5010))) device ≡ beyond_page)
unfolding walk_task_page
my_ioctl-region_example =
    my_ioctl-region find 7 mm device 0x5008 0x5010 5 refl flat-IsPaged length-device refl
      (omega arith) (omega arith) (omega arith)

abbrev syscall : ℤ → ℤ
syscall (pos n) = pos n
syscall (negsuc n) = negsuc 0

syscall-IsSyscall : IsSyscall syscall
syscall-IsSyscall = record { kept = λ n small. refl; error = refl }

-- The keys `i`, `b` and `h`, and what they ask for.
session-Answers : Answers find device.frame (info 7 ∷ bytes 7 0x5008 0x5010 ∷ help ∷ []) (
    enter_pid
    ∷ result (get_mm_info 7) (pos (length (concat (mm_lines mm))))
    ∷ text (concat (mm_lines mm))
    ∷ enter_pid
    ∷ enter_addr
    ∷ enter_addr
    ∷ result (get_addr_region (some (7, 0x5008, 0x5010))) (pos 8)
    ∷ hex_bytes (user_bytes flat device.frame 0x5008 9)
    ∷ usage
    ∷ [])
unfolding walk_task_page
session-Answers = cons (info_of 7 mm refl) (
    cons
      (bytes_of 7 mm 0x5008 0x5010 (record {
        found = refl;
        paged = flat-IsPaged;
        page = 5;
        walked = refl;
        ordered = omega arith;
        words = omega arith;
        one_page = omega arith;
      }))
      (cons help_of nil))

main-Answers_example :
    let keys = info 7 ∷ bytes 7 0x5008 0x5010 ∷ help ∷ [] in
    let outs =
      enter_pid
      ∷ result (get_mm_info 7) (pos (length (concat (mm_lines mm))))
      ∷ text (concat (mm_lines mm))
      ∷ enter_pid
      ∷ enter_addr
      ∷ enter_addr
      ∷ result (get_addr_region (some (7, 0x5008, 0x5010))) (pos 8)
      ∷ hex_bytes (user_bytes flat device.frame 0x5008 9)
      ∷ usage
      ∷ [] in
    (main find syscall true 0x10000 true (keys ++ quit ∷ info 8 ∷ []) device
      ≡ record { outs = usage ∷ prompt ∷ outs ++ []; end = finished })
    × (find 8 ≡ none
        → main find syscall true 0x10000 true (keys ++ info 8 ∷ info 8 ∷ []) device ≡ record {
          outs = usage ∷ prompt ∷ outs ++ enter_pid ∷ result (get_mm_info 8) (negsuc 0) ∷ [];
          end = failed;
        })
main-Answers_example =
    main-Answers find syscall-IsSyscall device 0x10000 8 (info 8 ∷ []) length-device session-Answers

abbrev start_device : Device
start_device = record device { frame = λ page offset. if offset % 4 == 0 then 7 else 0 }

main-twice_example :
    (is_minus_one (syscall (load (start_device.frame 5) 8)) ≡ false
      → UserCmd.main find syscall (some (7, 0x5008)) true start_device
        ≡ printed (syscall (load (start_device.frame 5) 8)) (written start_device 5 8))
    × (is_minus_one (syscall (load (start_device.frame 5) 8)) ≡ true
        → UserCmd.main find syscall (some (7, 0x5008)) true start_device
          ≡ UserCmd.failed (written start_device 5 8))
    × (UserCmd.main find syscall (some (7, 0x5008)) true (written start_device 5 8)
        ≡ printed (pos 0x12345678) (written (written start_device 5 8) 5 8))
unfolding walk_task_page
main-twice_example = main-twice find 7 mm 0x5008 5 refl refl (omega arith) syscall start_device refl

-- A word of -1 is handed over as an error.
abbrev all_ones : Device
all_ones = record device { frame = λ page offset. 255 }

main-minus_one :
    UserCmd.main find syscall (some (7, 0x5008)) true all_ones
    ≡ UserCmd.failed (written all_ones 5 8)
unfolding walk_task_page linux_summary.Zpage.UserCmd.main my_ioctl load
main-minus_one = refl

-- Each time that the module is loaded it takes a block, which it never gives back.
blocks-kept :
    (my_exit
      (my_init true true (record { registered = false; mmap_data = false; blocks = 0 }))).blocks
    ≡ 1
unfolding my_init my_exit
blocks-kept = refl
