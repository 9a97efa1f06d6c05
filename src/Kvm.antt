-- ===== src/Kvm.antt =====
-- The programs src/virtual/kvm/kvm_run_test1.c and kvm_run_test2.c, which make a virtual machine,
-- run it and print what it writes to the serial port. What the kernel answers is a parameter.
pub mod ApiTest
pub mod Test1
pub mod Test2
pub mod Guest
pub mod Serial
mod Tests
use linux_summary.Base.{ℕ, Bool, Option, List}
use linux_summary.Base.Int.{ℤ}

-- The answers of the calls in their order: whether a call succeeds, or its result. `map_memory` and
-- `map_run` say whether `mmap` gives a pointer other than NULL, which is what the code tests.
pub record Answers : Type 0 where
  pub open_kvm : Bool
  pub api_version : ℤ
  pub user_memory : ℤ
  pub create_vm : Bool
  pub map_memory : Bool
  pub set_region : Bool
  pub create_vcpu : Bool
  pub vcpu_mmap_size : ℤ
  pub run_size : ℕ
  pub map_run : Bool
  pub get_sregs : Bool
  pub set_sregs : Bool
  pub set_regs : Bool

-- Where the setting up stops, named after the call or the message.
pub data Stage : Type 0 where
  usage open_code open_kvm api_version api_version_not_12 check_extension no_user_memory : Stage
  create_vm guest_memory set_region create_vcpu mmap_size mmap_size_small map_run : Stage
  get_sregs set_sregs set_regs : Stage

-- The machine when it is run: its memory, where that stands, and the registers that are set.
pub record Machine : Type 0 where
  pub memory : List ℕ
  pub guest_phys_addr : ℕ
  pub cs_base : ℕ
  pub cs_selector : ℕ
  pub rip : ℕ
  pub rax : ℕ
  pub rbx : ℕ
  pub rflags : ℕ

pub data Prepared : Type 0 where
  stopped : Stage → Prepared
  ready : Machine → Prepared

-- Why the machine came back. `out` is the direction of an access to a port.
pub data Exit : Type 0 where
  hlt fail_entry internal_error : Exit
  io : (out : Bool) (size port count byte : ℕ) → Exit
  unknown : ℕ → Exit
