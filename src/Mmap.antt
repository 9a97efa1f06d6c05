-- ===== src/Mmap.antt =====
-- The module src/linux/mmap/mmap_lkm.c, whose memory a program maps, and the program mmap_user.c.
pub mod Greeting
pub mod Anonymous
mod Tests
use linux_summary.Base.{
  ℕ, zero, suc, ◌+◌, ◌-◌, Bool, true, false, ltb, if◌then◌else◌, Option, none, some, List, [], ◌∷◌,
  ◌++◌, length, take, drop, replicate,
}
use linux_summary.Base.Int.{ℤ, pos, negsuc, einval, eagain}
use linux_summary.Base.Text.{codes}
use linux_summary.Base.Strto.{c_string, has_nul}

abbrev pub dev_size : ℕ
dev_size = 4096

-- `my_dev`, and whether the device is registered.
pub record Module : Type 0 where
  pub bytes : Option (List ℕ)
  pub size : ℕ
  pub registered : Bool

pub data Loaded : Type 0 where
  loaded : Module → Loaded
  null_write : Loaded

abbrev pub greeting : List ℕ
greeting = codes "Hello kernel memeory!"

-- The module behind its `my_init`.
abbrev pub fresh : (registers : Bool) → Module
fresh registers = record {
  bytes = some (greeting ++ drop (length greeting) (replicate dev_size 0));
  size = dev_size;
  registered = registers;
}

-- `my_init`, with whether `kzalloc` and `misc_register` succeed; the module does not look at either.
unfoldable pub my_init : (allocates registers : Bool) → Loaded
my_init false registers = null_write
my_init true registers = loaded (fresh registers)

unfoldable pub my_exit : Module → Module
my_exit m = record m { bytes = none; registered = false }

-- The bytes of the mapping, and the result: `my_dev.size` of them, wherever the area ends.
unfoldable pub my_mmap : Module → (vm_start vm_end : ℕ) (remaps : Bool) → Option (List ℕ) × ℤ
my_mmap m vm_start vm_end remaps =
    if ltb m.size (vm_end - vm_start)
    then (none, einval)
    else (if remaps then (m.bytes, pos 0) else (none, eagain))

abbrev pub mmap_len : ℕ
mmap_len = 256

-- `strncpy(buf, text, n)`
abbrev pub strncpy : ℕ → List ℕ → List ℕ
strncpy n text = take n (c_string text ++ replicate n 0)

-- What is printed: the two texts; or a text that has no end in its memory is read beyond it.
pub data Printed : Type 0 where
  printed : (code : ℕ) → List (List ℕ) → Printed
  reads_beyond : Printed

-- The program behind `mmap`.
unfoldable pub show : List ℕ → Printed
unfolding c_string
show mapped =
    let buf = strncpy mmap_len mapped in
    if has_nul mapped
    then (if has_nul buf then printed 0 (c_string mapped ∷ c_string buf ∷ []) else reads_beyond)
    else reads_beyond

-- The program, where the kernel makes an area from `vm_start` to `vm_end` for it.
unfoldable pub user : Module → (vm_start vm_end : ℕ) (remaps : Bool) → Printed
unfolding my_mmap show
user m vm_start vm_end remaps =
    if m.registered
    then elim (my_mmap m vm_start vm_end remaps).0 [ none ↦ printed 1 [] | some bytes ↦ show bytes ]
    else printed 1 []
