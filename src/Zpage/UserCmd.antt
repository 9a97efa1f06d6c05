-- ===== src/Zpage/UserCmd.antt =====
-- src/kernel/linux_memory/user_task_page/user_cmd.c: one exchange of a word of another process.
use linux_summary.Base.{
  ℕ, ◌+◌, ◌-◌, ◌%◌, ◌≤◌, ◌≡◌, refl, ap, ◌∙◌, Bool, true, false, Option, none, some, ◌==◌, le→ltb,
  if◌then◌else◌, arith,
}
use linux_summary.Base.Int.{ℤ, pos}
use linux_summary.Zpage.{
  done, no_task, no_mm, no_page, beyond_page, beyond_buffer, Mm, Task, Device, page_size,
}
use linux_summary.Zpage.Walk.{walk_task_page}
use linux_summary.Zpage.Ioctl.{get_pid_addr, exchange, load, store, my_ioctl}
use linux_summary.Zpage.Region.{load-store}
use linux_summary.Zpage.User.{is_minus_one}

-- The exits with 1, a fault of the driver, or the result that is printed; with the device behind.
pub data Shown : Type 0 where
  usage not_opened fault : Shown
  failed : Device → Shown
  printed : ℤ → Device → Shown

-- The program, with the numbers of its arguments and whether the device is opened.
unfoldable pub main :
    (find : ℕ → Option Task) (syscall : ℤ → ℤ) → Option (ℕ × ℕ) → (opens : Bool) → Device → Shown
main find syscall none opens d = usage
main find syscall (some (pid, addr)) false d = not_opened
main find syscall (some (pid, addr)) true d =
    elim (my_ioctl find (get_pid_addr (some (pid, addr))) d) [
      | done (r, d') ↦ if is_minus_one (syscall r) then failed d' else printed (syscall r) d'
      | no_task ↦ fault
      | no_mm ↦ fault
      | no_page ↦ fault
      | beyond_page ↦ fault
      | beyond_buffer ↦ fault
    ]

-- The device behind an exchange.
abbrev pub written : Device → (page o : ℕ) → Device
written d page o = record d {
  frame = λ q i. if q == page then store (d.frame page) o i else d.frame q i;
}

second_word : (d : Device) (page o : ℕ) → load ((written d page o).frame page) o ≡ pos 0x12345678
second_word d page o =
    let again : (page == page) ≡ true = ground arith in
    ap (λ b. load (λ i. if b then store (d.frame page) o i else d.frame page i) o) again
    ∙ load-store (d.frame page) o

module _ (find : ℕ → Option Task) (pid : ℕ) (mm : Mm) (addr page : ℕ)
    (found : find pid ≡ some (record { mm = some mm }))
    (walked : walk_task_page mm.tables addr ≡ some page)
    (inside : addr % page_size + 4 ≤ page_size) where
  exchange-run :
      (d : Device)
      → my_ioctl find (get_pid_addr (some (pid, addr))) d
        ≡ done (load (d.frame page) (addr % page_size), written d page (addr % page_size))
  unfolding my_ioctl exchange
  exchange-run d =
      let more = le→ltb (page_size - 4) (addr % page_size) (omega arith) in
      rw (found, exchange, walked, more) refl

  -- For a word within a page of a process: the program prints the word and leaves 0x12345678 there,
  -- which a second run prints. A word that the C library takes for an error, so that the program
  -- fails, has been overwritten all the same.
  pub main-twice :
      (syscall : ℤ → ℤ) (d : Device)
      → syscall (pos 0x12345678) ≡ pos 0x12345678
      → let o = addr % page_size in
        let word = load (d.frame page) o in
        let run = main find syscall (some (pid, addr)) true in
        (is_minus_one (syscall word) ≡ false → run d ≡ printed (syscall word) (written d page o))
        × (is_minus_one (syscall word) ≡ true → run d ≡ failed (written d page o))
        × (run (written d page o) ≡ printed (pos 0x12345678) (written (written d page o) page o))
  unfolding main
  main-twice syscall d kept =
      let o = addr % page_size in
      (
        λ good. rw (main, exchange-run d, good) refl,
        λ bad. rw (main, exchange-run d, bad) refl,
        rw (main, exchange-run (written d page o), second_word d page o, kept) refl,
      )
