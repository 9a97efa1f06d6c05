-- ===== src/Zpage/Module.antt =====
-- zpage.c: what it takes when it is loaded and gives back when it is removed.
use linux_summary.Base.{ℕ, ◌+◌, Bool, false, if◌then◌else◌}

-- The device, the pointer `mmap_data`, and the blocks of the kernel's memory that are in use.
pub record Module : Type 0 where
  pub registered : Bool
  pub mmap_data : Bool
  pub blocks : ℕ

-- `my_init`, with whether `misc_register` and `kzalloc` succeed; its result is 0 in each case.
unfoldable pub my_init : (registers allocates : Bool) → Module → Module
my_init registers allocates m = record {
  registered = registers;
  mmap_data = allocates;
  blocks = if allocates then m.blocks + 1 else m.blocks;
}

unfoldable pub my_exit : Module → Module
my_exit m = record m { registered = false }
