-- ===== src/SysReg.antt =====
-- The module src/kernel/linux_memory/mm_addr/sys_reg.c, whose file shows registers of the processor.
pub mod Length
pub mod MemMap
mod Tests
use linux_summary.Base.{
  ℕ, ◌+◌, ◌-◌, ◌*◌, ◌/◌, ◌%◌, ◌^◌, Bool, true, false, if◌then◌else◌, Option, none, some, List, [],
  ◌∷◌, ◌++◌,
}
use linux_summary.Base.Int.{ℤ, pos, efault}
use linux_summary.Base.Text.{codes, digits}

-- The registers, and the table of pages of the process that reads; `limit` is of type `short`, here
-- by its bits.
pub record Registers : Type 0 where
  pub cr0 : ℕ
  pub cr3 : ℕ
  pub cr4 : ℕ
  pub pgd : ℕ
  pub pgd_pa : ℕ
  pub gdtr_address : ℕ
  pub gdtr_limit : ℕ

-- `%lX` and `%X`
abbrev pub hex : ℕ → List ℕ
hex n = digits b'A' 16 16 n

-- A `short` handed over as an `int`: its sign fills the upper bits.
abbrev pub short_as_int : ℕ → ℕ
short_as_int w = w % 2 ^ 16 + w / 2 ^ 15 % 2 * (2 ^ 32 - 2 ^ 16)

-- The text that the calls of `sprintf` write one behind the other.
unfoldable pub text : Registers → List ℕ
text r =
    codes "cr4="
    ++ hex r.cr4
    ++ codes "  PSE="
    ++ hex (r.cr4 / 2 ^ 4 % 2)
    ++ codes "  PAE="
    ++ hex (r.cr4 / 2 ^ 5 % 2)
    ++ codes "  \ncr3="
    ++ hex r.cr3
    ++ codes " cr0="
    ++ hex r.cr0
    ++ codes "\npgd:0x"
    ++ hex r.pgd
    ++ codes "\npgd pa:0x"
    ++ hex r.pgd_pa
    ++ codes "\ngdtr address:"
    ++ hex r.gdtr_address
    ++ codes ", limit:"
    ++ hex (short_as_int r.gdtr_limit)
    ++ codes "\n"

-- A read for `count` bytes: the result, and what is written to the reader's memory, with the zero
-- behind it.
unfoldable pub my_get_info : Registers → (count : ℕ) → ℤ × List ℕ
unfolding text
my_get_info r count = (pos count, text r ++ 0 ∷ [])

-- `test_init` and `test_exit`: the result, and whether the file is there.
unfoldable pub test_init : (creates : Bool) → ℤ × Bool
test_init creates = if creates then (pos 0, true) else (efault, false)

unfoldable pub test_exit : Bool → Bool
test_exit there = false
