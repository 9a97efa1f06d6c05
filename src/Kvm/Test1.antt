-- ===== src/Kvm/Test1.antt =====
-- src/virtual/kvm/kvm_run_test1.c: a machine whose code stands in the program.
use linux_summary.Base.{
  ℕ, ◌-◌, Bool, ◌&&◌, Option, none, some, List, [], ◌∷◌, ◌++◌, ltb, ◌==◌, if◌then◌else◌, replicate,
  length,
}
use linux_summary.Base.Int.{pos, negsuc}
use linux_summary.Kvm.{
  Answers, Stage, Machine, Prepared, stopped, ready, Exit, hlt, fail_entry, internal_error, io,
  unknown,
}

abbrev pub code : List ℕ
code = 0xba ∷ 0xf8 ∷ 0x03 ∷ 0x00 ∷ 0xd8 ∷ 0x04 ∷ b'0' ∷ 0xee ∷ 0xb0 ∷ b'\n' ∷ 0xee ∷ 0xf4 ∷ []

abbrev pub machine : Machine
machine = record {
  memory = code ++ replicate (0x1000 - length code) 0;
  guest_phys_addr = 0x1000;
  cs_base = 0;
  cs_selector = 0;
  rip = 0x1000;
  rax = 2;
  rbx = 2;
  rflags = 2;
}

-- The registers: `cs` flat, and the instruction pointer at the code.
set_registers : Answers → Prepared
set_registers a =
    if a.get_sregs
    then (if a.set_sregs
        then (if a.set_regs then ready machine else stopped Stage.set_regs)
        else stopped Stage.set_sregs)
    else stopped Stage.get_sregs

-- The run area: its size, and its mapping.
map_run_area : Answers → Prepared
unfolding set_registers
map_run_area a = elim a.vcpu_mmap_size [
  | negsuc n ↦ stopped Stage.mmap_size
  | pos size ↦
      (if ltb size a.run_size
        then stopped Stage.mmap_size_small
        else (if a.map_run then set_registers a else stopped Stage.map_run))
]

-- The machine, its memory and its processor.
make_machine : Answers → Prepared
unfolding map_run_area
make_machine a =
    if a.create_vm
    then (if a.map_memory
        then (if a.set_region
            then (if a.create_vcpu then map_run_area a else stopped Stage.create_vcpu)
            else stopped Stage.set_region)
        else stopped Stage.guest_memory)
    else stopped Stage.create_vm

-- `KVM_CHECK_EXTENSION`: an error, no support, or support.
check_extension : Answers → Prepared
unfolding make_machine
check_extension a = elim a.user_memory [
  | negsuc n ↦ stopped Stage.check_extension
  | pos n ↦ (if n == 0 then stopped Stage.no_user_memory else make_machine a)
]

-- All of the setting up: the version of the interface comes first.
unfoldable pub prepare : Answers → Prepared
unfolding check_extension
prepare a =
    if a.open_kvm
    then elim a.api_version [
      | negsuc n ↦ stopped Stage.api_version
      | pos n ↦ (if n == 12 then check_extension a else stopped Stage.api_version_not_12)
    ]
    else stopped Stage.open_kvm

-- Whether the program prints the byte of an access: one byte, once, out to the serial port.
unfoldable pub is_serial : Bool → (size port count : ℕ) → Bool
is_serial out size port count = out && (size == 1) && (port == 0x3f8) && (count == 1)

abbrev pub put : ℕ → Option ℕ × List ℕ → Option ℕ × List ℕ
put c (code, printed) = (code, c ∷ printed)

-- The loop over `KVM_RUN`, with its answers to come (`none` for -1): what `main` returns, `none`
-- while the machine runs, and the bytes printed.
unfoldable pub run_loop : List (Option Exit) → Option ℕ × List ℕ
unfolding is_serial
run_loop [] = (none, [])
run_loop (none ∷ exits) = (some 1, [])
run_loop (some hlt ∷ exits) = (some 0, [])
run_loop (some (io out size port count byte) ∷ exits) =
    let more = put byte (run_loop exits) in
    if is_serial out size port count then more else (some 1, [])
run_loop (some fail_entry ∷ exits) = (some 1, [])
run_loop (some internal_error ∷ exits) = (some 1, [])
run_loop (some (unknown n) ∷ exits) = (some 0, [])

unfoldable pub main : Answers → List (Option Exit) → Option ℕ × List ℕ
main a exits = elim (prepare a) [ stopped stage ↦ (some 1, []) | ready m ↦ run_loop exits ]
