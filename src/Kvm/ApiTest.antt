-- ===== src/Kvm/ApiTest.antt =====
-- src/virtual/kvm/kvm_api_test.c, which asks the kernel for three numbers.
use linux_summary.Base.{ℕ, zero, ◌≡◌, Bool, true, List, [], ◌∷◌, length, if◌then◌else◌, arith}
use linux_summary.Base.Int.{ℤ, negsuc}

-- What the calls give.
pub record Answers : Type 0 where
  pub opens : Bool
  pub api_version : ℤ
  pub nr_vcpus : ℤ
  pub max_vcpus : ℤ

pub data Line : Type 0 where
  open_error nr_vcpus_error max_vcpus_error : Line
  api_version recommended maximum : ℤ → Line

-- The number that `KVM_CHECK_EXTENSION` gives, or the error where it is -1.
unfoldable pub capability : (error : Line) → (ℤ → Line) → ℤ → Line
capability error shown (negsuc zero) = error
capability error shown ret = shown ret

-- The exit code, which is that of -1 where the device cannot be opened, and what is printed.
unfoldable pub main : Answers → ℕ × List Line
unfolding capability
main a =
    if a.opens
    then (
      0,
      api_version a.api_version
          ∷ capability nr_vcpus_error recommended a.nr_vcpus
          ∷ capability max_vcpus_error maximum a.max_vcpus
          ∷ [],
    )
    else (255, open_error ∷ [])

-- Once the device is open the exit code is 0, and there is a line for each question, whatever the
-- answers.
pub main-length : (a : Answers) → a.opens ≡ true → ((main a).0 ≡ 0) × (length (main a).1 ≡ 3)
unfolding main
main-length a h = ground arith
