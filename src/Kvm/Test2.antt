-- ===== src/Kvm/Test2.antt =====
-- src/virtual/kvm/kvm_run_test2.c: a machine whose code is read from a file.
use linux_summary.Base.{
  ℕ, ◌-◌, Bool, false, ◌&&◌, Option, none, some, List, [], ◌∷◌, ◌++◌, ltb, ◌==◌, if◌then◌else◌,
  replicate, length,
}
use linux_summary.Base.Int.{pos, negsuc}
use linux_summary.Kvm.{
  Answers, Stage, Machine, Prepared, stopped, ready, Exit, hlt, fail_entry, internal_error, io,
  unknown,
}

abbrev pub machine : List ℕ → Machine
machine code = record {
  memory = code ++ replicate (0x1000 - length code) 0;
  guest_phys_addr = 0;
  cs_base = 0;
  cs_selector = 0;
  rip = 0;
  rax = 2;
  rbx = 2;
  rflags = 2;
}

-- The registers: `cs` flat, and the instruction pointer at the code.
set_registers : List ℕ → Answers → Prepared
set_registers code a =
    if a.get_sregs
    then (if a.set_sregs
        then (if a.set_regs then ready (machine code) else stopped Stage.set_regs)
        else stopped Stage.set_sregs)
    else stopped Stage.get_sregs

-- The run area: its size, and its mapping.
map_run_area : List ℕ → Answers → Prepared
unfolding set_registers
map_run_area code a = elim a.vcpu_mmap_size [
  | negsuc n ↦ stopped Stage.mmap_size
  | pos size ↦
      (if ltb size a.run_size
        then stopped Stage.mmap_size_small
        else (if a.map_run then set_registers code a else stopped Stage.map_run))
]

-- The machine, its memory and its processor.
make_machine : List ℕ → Answers → Prepared
unfolding map_run_area
make_machine code a =
    if a.create_vm
    then (if a.map_memory
        then (if a.set_region
            then (if a.create_vcpu then map_run_area code a else stopped Stage.create_vcpu)
            else stopped Stage.set_region)
        else stopped Stage.guest_memory)
    else stopped Stage.create_vm

-- `KVM_CHECK_EXTENSION`: an error, no support, or support.
check_extension : List ℕ → Answers → Prepared
unfolding make_machine
check_extension code a = elim a.user_memory [
  | negsuc n ↦ stopped Stage.check_extension
  | pos n ↦ (if n == 0 then stopped Stage.no_user_memory else make_machine code a)
]

-- All of the setting up: the version of the interface comes first.
unfoldable pub prepare : List ℕ → Answers → Prepared
unfolding check_extension
prepare code a =
    if a.open_kvm
    then elim a.api_version [
      | negsuc n ↦ stopped Stage.api_version
      | pos n ↦ (if n == 12 then check_extension code a else stopped Stage.api_version_not_12)
    ]
    else stopped Stage.open_kvm

-- Whether the program prints the byte of an access: one byte, once, out to the serial port.
unfoldable pub is_serial : Bool → (size port count : ℕ) → Bool
is_serial out size port count = out && (size == 1) && (port == 0x3f8) && (count == 1)

abbrev pub put : ℕ → Option ℕ × List ℕ → Option ℕ × List ℕ
put c (code, printed) = (code, c ∷ printed)

-- The loop over `KVM_RUN`, with its answers to come (`none` for -1): what `main` returns, `none`
-- while the machine runs, and the bytes printed.
unfoldable pub run_loop : List (Option Exit) → Option ℕ × List ℕ
unfolding is_serial
run_loop [] = (none, [])
run_loop (none ∷ exits) = (some 1, [])
run_loop (some hlt ∷ exits) = (some 0, [])
run_loop (some (io out size port count byte) ∷ exits) =
    let more = put byte (run_loop exits) in
    if is_serial out size port count then more else (some 1, [])
run_loop (some fail_entry ∷ exits) = (some 1, [])
run_loop (some internal_error ∷ exits) = (some 1, [])
run_loop (some (unknown n) ∷ exits) = (some 0, [])

-- Whether the setting up comes as far as the copy of the code.
unfoldable pub reaches_copy : Answers → Bool
reaches_copy a =
    a.open_kvm
    && elim a.api_version [ negsuc n ↦ false | pos n ↦ n == 12 ]
    && elim a.user_memory [ negsuc n ↦ false | pos n ↦ ltb 0 n ]
    && a.create_vm
    && a.map_memory

-- The program's argument: missing, a file that cannot be opened, or the bytes that are read of it.
pub data Argument : Type 0 where
  missing unreadable : Argument
  file : List ℕ → Argument

-- `none` where the copy of the code leaves the memory of one page.
unfoldable pub main : Argument → Answers → List (Option Exit) → Option (Option ℕ × List ℕ)
main missing a exits = some (some 1, [])
main unreadable a exits = some (some 1, [])
main (file code) a exits =
    if ltb 0x1000 (length code) && reaches_copy a then none else elim (prepare code a) [
      | stopped stage ↦ some (some 1, [])
      | ready m ↦ some (run_loop exits)
    ]
