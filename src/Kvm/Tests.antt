-- ===== src/Kvm/Tests.antt =====
-- The theorems on the two KVM programs at calls that all succeed.
use linux_summary.Base.{ℕ, ◌≡◌, refl, true, some, List, [], ◌∷◌}
use linux_summary.Base.Int.{pos}
use linux_summary.Kvm.{Answers, hlt}
use linux_summary.Kvm.Test1
use linux_summary.Kvm.Serial.{serial}

abbrev good : Answers
good = record {
  open_kvm = true;
  api_version = pos 12;
  user_memory = pos 1;
  create_vm = true;
  map_memory = true;
  set_region = true;
  create_vcpu = true;
  vcpu_mmap_size = pos 12288;
  run_size = 2352;
  map_run = true;
  get_sregs = true;
  set_sregs = true;
  set_regs = true;
}

-- The first program prints the sum of 2 and 2.
main_prints :
    Test1.main good (serial b'4' ∷ serial b'\n' ∷ some hlt ∷ []) ≡ (some 0, b'4' ∷ b'\n' ∷ [])
unfolding Test1.main Test1.prepare Test1.run_loop Test1.is_serial
main_prints = refl

abbrev code : List ℕ
code = 0xb0 ∷ 0xf4 ∷ []
