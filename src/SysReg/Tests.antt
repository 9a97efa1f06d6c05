-- ===== src/SysReg/Tests.antt =====
-- A read of the registers.
use linux_summary.Base.{◌≡◌, [], ◌∷◌, true}
use linux_summary.SysReg.{Registers, text, my_get_info}
use linux_summary.SysReg.MemMap.{printed, main, main-text}

abbrev registers : Registers
registers = record {
  cr0 = 0x80050033;
  cr3 = 0x1000;
  cr4 = 0x6F0;
  pgd = 0xFFFF880000001000;
  pgd_pa = 0x1000;
  gdtr_address = 0xFFFF880000009000;
  gdtr_limit = 0x7F;
}

main-text_example : main true (my_get_info registers) (7 ∷ 7 ∷ []) ≡ printed (text registers)
main-text_example = main-text registers (7 ∷ 7 ∷ [])
