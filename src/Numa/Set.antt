-- ===== src/Numa/Set.antt =====
-- src/linux/numa/numaset.c from its arguments to its end.
use linux_summary.Base.{
  ℕ, suc, ◌-◌, ◌/◌, ◌%◌, ◌^◌, ◌<◌, ◌≡◌, refl, ap, Bool, true, false, leb, Option, none, some, List,
  [], ◌∷◌, ◌++◌, replicate, arith,
}
use linux_summary.Base.Int.{ℤ, pos, negsuc}
use linux_summary.Numa.{perlength, mask_bytes, numaset_mask}

-- What `atoi` gives for the arguments that are there.
pub record Args : Type 0 where
  pub mode : Option ℤ
  pub mask0 : Option ℤ
  pub maxnode : Option ℤ

-- An `int` in an `unsigned long`.
abbrev pub unsigned_long : ℤ → ℕ
unsigned_long (pos n) = n
unsigned_long (negsuc n) = 2 ^ 64 - 1 - n

abbrev pub or_default : ℕ → Option ℤ → ℕ
or_default d none = d
or_default d (some v) = unsigned_long v

abbrev pub mode_of : Option ℤ → ℤ
mode_of none = pos 2
mode_of (some v) = v

-- A line; of the mask and the number of nodes, the low 32 bits are printed.
pub data Line : Type 0 where
  chosen : (mode : ℤ) → (mask maxnode : ℕ) → Line
  set_error pid : Line

-- How the program ends: with 0, its lines and what it has handed to the kernel; or where it
-- writes to a word of the mask that is not there.
pub data Outcome : Type 0 where
  ended : List Line → (mode : ℤ) → (mask : List (Option ℕ)) → (maxnode : ℕ) → Outcome
  beyond_mask : List Line → Outcome

-- Behind the first line. `sets` says whether `set_mempolicy` succeeds.
abbrev pub hand_over : (sets : Bool) → List Line → ℤ → Option (List (Option ℕ)) → ℕ → Outcome
hand_over sets lines mode none maxnode = beyond_mask lines
hand_over true lines mode (some mask) maxnode = ended (lines ++ pid ∷ []) mode mask maxnode
hand_over false lines mode (some mask) maxnode =
    ended (lines ++ set_error ∷ pid ∷ []) mode mask maxnode

-- `malloc` gives what it is asked for.
unfoldable pub main : Args → (sets : Bool) → Outcome
unfolding numaset_mask
main a sets =
    let mode = mode_of a.mode in
    let mask0 = or_default 1 a.mask0 in
    let maxnode = or_default 1025 a.maxnode in
    hand_over sets (chosen mode (mask0 % 2 ^ 32) (maxnode % 2 ^ 32) ∷ []) mode
      (numaset_mask maxnode mask0) maxnode

-- For a number of nodes from 1 on, the program ends with 0 whether the policy is set or not, and
-- has handed over the mask with its first word alone written.
pub main-ended :
    (mode mask0 : Option ℤ) (n : ℕ)
    → suc n < 2 ^ 31
    → let a : Args = record { mode = mode; mask0 = mask0; maxnode = some (pos (suc n)) } in
      let words = mask_bytes (suc n) / perlength in
      let mask = some (or_default 1 mask0) ∷ replicate (words - 1) none in
      let first = chosen (mode_of mode) (or_default 1 mask0 % 2 ^ 32) (suc n % 2 ^ 32) in
      (main a true ≡ ended (first ∷ pid ∷ []) (mode_of mode) mask (suc n))
      × (main a false ≡ ended (first ∷ set_error ∷ pid ∷ []) (mode_of mode) mask (suc n))
unfolding main numaset_mask mask_bytes
main-ended mode mask0 n h =
    let first = chosen (mode_of mode) (or_default 1 mask0 % 2 ^ 32) (suc n % 2 ^ 32) in
    let room : leb 1 (mask_bytes (suc n) / perlength) ≡ true = ground (arith, h) in
    let mask : numaset_mask (suc n) (or_default 1 mask0)
        ≡ some (some (or_default 1 mask0) ∷ replicate (mask_bytes (suc n) / perlength - 1) none) =
      rw (numaset_mask, room) refl in
    (
      ap (λ m. hand_over true (first ∷ []) (mode_of mode) m (suc n)) mask,
      ap (λ m. hand_over false (first ∷ []) (mode_of mode) m (suc n)) mask,
    )
