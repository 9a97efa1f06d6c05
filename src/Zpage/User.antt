-- ===== src/Zpage/User.antt =====
-- src/kernel/linux_memory/user_task_page/user.c, the program that talks to the driver zpage.c: its
-- commands, over the driver's ioctls and the memory that it shares with the driver.
pub mod Reports
pub mod Answers
pub mod Session
use linux_summary.Base.{
  ℕ, zero, suc, ◌+◌, Bool, true, false, Option, none, some, List, [], ◌∷◌, ◌++◌, leb, if◌then◌else◌,
  length, take,
}
use linux_summary.Base.Int.{ℤ, pos, negsuc}
use linux_summary.Base.Strto.{c_string, has_nul}
use linux_summary.Zpage.{
  Run, done, no_task, no_mm, no_page, beyond_page, beyond_buffer, Task, Device, mmap_len,
}
use linux_summary.Zpage.Ioctl.{
  Command, get_mm_info, get_vma_info, get_pid_args, get_pid_data, get_addr_region, get_pid_addr,
  rounds_below, rounds_up_to, my_ioctl, my_mmap,
}

-- A key, with the numbers that `scanf` reads after it.
pub data Key : Type 0 where
  test : (pid addr : ℕ) → Key
  info vmas args section : (pid : ℕ) → Key
  chars bytes : (pid start end : ℕ) → Key
  help space other quit : Key

-- What is printed: the usage, the prompt for a key and those of `enter_pid` and `enter_addr`; a
-- text, or bytes as `unsigned char` or `char` in base 16, or as characters.
pub data Out : Type 0 where
  usage prompt enter_pid enter_addr : Out
  result : Command → ℤ → Out
  text hex_bytes hex_chars char_bytes : List ℕ → Out

-- What a key asks for before its ioctl.
unfoldable pub asks : Key → List Out
asks (test pid addr) = enter_pid ∷ enter_addr ∷ []
asks (info pid) = enter_pid ∷ []
asks (vmas pid) = enter_pid ∷ []
asks (args pid) = enter_pid ∷ []
asks (section pid) = enter_pid ∷ []
asks (chars pid start end) = enter_pid ∷ enter_addr ∷ enter_addr ∷ []
asks (bytes pid start end) = enter_pid ∷ enter_addr ∷ enter_addr ∷ []
asks help = []
asks space = []
asks other = []
asks quit = []

-- What a key leads to: the next round, the end of the loop, the exit of `ioctl_ret`, a fault of the
-- driver, or a read behind the memory that is shared.
pub data Round : Type 0 where
  next : List Out → Device → Round
  exits : List Out → Round
  stop driver_fault reads_beyond : Round

abbrev pub is_minus_one : ℤ → Bool
is_minus_one (pos n) = false
is_minus_one (negsuc zero) = true
is_minus_one (negsuc (suc n)) = false

-- `fprintf(stdout, "%s\n", mmap_addr)`
unfoldable pub show_text : ℤ → Device → Option (List Out)
unfolding c_string
show_text ret d = if has_nul d.mmap_data then some (text (c_string d.mmap_data) ∷ []) else none

-- The loops over `mmap_addr + i`.
unfoldable pub show_bytes : (List ℕ → Out) → (rounds : ℕ) → Device → Option (List Out)
show_bytes out rounds d =
    if leb rounds (length d.mmap_data) then some (out (take rounds d.mmap_data) ∷ []) else none

module _ (find : ℕ → Option Task) (syscall : ℤ → ℤ) where
  -- An ioctl with `ioctl_ret`, and what is shown after it. `syscall` is what the C library makes of
  -- the driver's result.
  unfoldable pub perform : Command → (ℤ → Device → Option (List Out)) → Device → Round
  perform cmd show d = elim (my_ioctl find cmd d) [
    | done (r, d') ↦
        let ret = syscall r in
        (if is_minus_one ret then exits (result cmd ret ∷ []) else elim (show ret d') [
          | none ↦ reads_beyond
          | some outs ↦ next (result cmd ret ∷ outs) d'
        ])
    | no_task ↦ driver_fault
    | no_mm ↦ driver_fault
    | no_page ↦ driver_fault
    | beyond_page ↦ driver_fault
    | beyond_buffer ↦ driver_fault
  ]

  -- A round of the loop, behind what the key asks for.
  unfoldable pub round : Key → Device → Round
  unfolding perform show_text show_bytes
  round (test pid addr) d = perform (get_pid_addr (some (pid, addr))) (λ ret d'. some []) d
  round (info pid) d = perform (get_mm_info pid) show_text d
  round (vmas pid) d = perform (get_vma_info pid) show_text d
  round (args pid) d = perform (get_pid_args pid) show_text d
  round (section pid) d =
      perform (get_pid_data pid) (λ ret. show_bytes hex_chars (rounds_below ret)) d
  round (chars pid start end) d =
      perform (get_addr_region (some (pid, start, end)))
        (λ ret. show_bytes char_bytes (rounds_up_to ret)) d
  round (bytes pid start end) d =
      perform (get_addr_region (some (pid, start, end)))
        (λ ret. show_bytes hex_bytes (rounds_up_to ret)) d
  round space d = next (prompt ∷ []) d
  round help d = next (usage ∷ []) d
  round other d = next (usage ∷ []) d
  round quit d = stop

-- How the program stands: all that it has printed, and whether it has exited with 0 or with 1, waits
-- for a key, or has met a fault.
pub data End : Type 0 where
  finished failed waiting faulted : End

pub record Printed : Type 0 where
  pub outs : List Out
  pub end : End

abbrev pub print : List Out → Printed → Printed
print outs p = record p { outs = outs ++ p.outs }

module _ (find : ℕ → Option Task) (syscall : ℤ → ℤ) where
  -- `while ((c = getchar()) != 'q')` over the keys to come.
  unfoldable pub loop : List Key → Device → Printed
  unfolding round asks
  loop [] d = record { outs = []; end = waiting }
  loop (key ∷ keys) d = print (asks key) (elim (round find syscall key d) [
    | next outs d' ↦ print outs (loop keys d')
    | stop ↦ record { outs = []; end = finished }
    | exits outs ↦ record { outs = outs; end = failed }
    | driver_fault ↦ record { outs = []; end = faulted }
    | reads_beyond ↦ record { outs = []; end = faulted }
  ])

  -- The program: `open`, the driver's `mmap` of `MMAP_LEN` bytes, and the loop.
  unfoldable pub main : (opens : Bool) (vm_start : ℕ) (remaps : Bool) → List Key → Device → Printed
  unfolding loop
  main opens vm_start remaps keys d =
      let (mapped, ret) = my_mmap vm_start (vm_start + mmap_len) remaps in
      if opens
      then elim mapped [
        | none ↦ record { outs = []; end = failed }
        | some area ↦ print (usage ∷ prompt ∷ []) (loop keys d)
      ]
      else record { outs = []; end = failed }
