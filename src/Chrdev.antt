-- ===== src/Chrdev.antt =====
-- The character device drivers: what a module has registered with the kernel, and the drivers of
-- src/device_driver, src/driver/simple_register_chrdev and src/linux/linux-inside.
pub mod Ofcd
pub mod Hello
pub mod Ztest
pub mod ZtestUser
mod Tests
use linux_summary.Base.{ℕ, ◌≡◌, Bool, true, false, List, take, length}

-- What the module holds of the kernel's registers, one field for each kind.
pub record Held : Type 0 where
  pub region : Bool
  pub cdev : Bool
  pub class : Bool
  pub device : Bool

-- What a call that gives a pointer answers: NULL, an error as a pointer (`ERR_PTR`), or an object.
pub data Pointer : Type 0 where
  null err_ptr object : Pointer

-- The C test `!pointer`.
abbrev pub is_null : Pointer → Bool
is_null null = true
is_null err_ptr = false
is_null object = false

abbrev pub is_object : Pointer → Bool
is_object object = true
is_object null = false
is_object err_ptr = false

abbrev pub nothing : Held
nothing = record { region = false; cdev = false; class = false; device = false }

-- A copy from the user: how many bytes were left out, and what then stands in the first bytes of
-- the destination.
pub record Copy : Type 0 where
  pub more : ℕ
  pub landed : List ℕ

-- What `copy_from_user` promises for the first `len` bytes of `user`: it fills `len` bytes, and if
-- nothing was left out they are the user's.
pub record IsCopy (user : List ℕ) (len : ℕ) (copy : Copy) : Type 0 where
  pub filled : length copy.landed ≡ len
  pub exact : copy.more ≡ 0 → copy.landed ≡ take len user
