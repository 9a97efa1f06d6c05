-- ===== src/Kvm/Serial.antt =====
-- What the machines of the two programs print.
use linux_summary.Base.{ℕ, ◌≡◌, refl, true, Option, none, some, List, [], ◌∷◌, arith}
use linux_summary.Kvm.{Exit, hlt, fail_entry, internal_error, io, unknown}
use linux_summary.Kvm.Test1
use linux_summary.Kvm.Test2

-- A byte written to the serial port.
abbrev pub serial : ℕ → Option Exit
serial byte = some (io true 1 0x3f8 1 byte)

-- What the program returns for an answer that is no write to the serial port.
abbrev pub code_of : Option Exit → ℕ
code_of none = 1
code_of (some hlt) = 0
code_of (some (io out size port count byte)) = 1
code_of (some fail_entry) = 1
code_of (some internal_error) = 1
code_of (some (unknown n)) = 0

abbrev pub IsSerial : Option Exit → Type 0
IsSerial (some (io out size port count byte)) =
    (out ≡ true) × (size ≡ 1) × (port ≡ 0x3f8) × (count ≡ 1)
IsSerial _ = ⊥

-- The loops of the two programs agree.
pub run_loop-eq : (exits : List (Option Exit)) → Test2.run_loop exits ≡ Test1.run_loop exits
unfolding Test1.run_loop Test2.run_loop
run_loop-eq [] = refl
run_loop-eq (none ∷ exits) = refl
run_loop-eq (some hlt ∷ exits) = refl
run_loop-eq (some (io out size port count byte) ∷ exits) = ground (arith, run_loop-eq exits)
run_loop-eq (some fail_entry ∷ exits) = refl
run_loop-eq (some internal_error ∷ exits) = refl
run_loop-eq (some (unknown n) ∷ exits) = refl
