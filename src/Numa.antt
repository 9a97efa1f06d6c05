-- ===== src/Numa.antt =====
-- The programs src/linux/numa/numaget.c and numaset.c: the masks of nodes that they hand to the
-- kernel.
pub mod Masks
pub mod Set
mod Tests
use linux_summary.Base.{
  ℕ, zero, suc, ◌+◌, ◌-◌, ◌*◌, ◌/◌, ◌%◌, ◌^◌, Bool, true, false, leb, if◌then◌else◌, Option, none,
  some, List, [], ◌∷◌, replicate,
}
use linux_summary.Base.Int.{ℤ, pos}

-- `sizeof(long)`
abbrev pub perlength : ℕ
perlength = 8

-- The bytes that `malloc` is asked for, of type `size_t`.
unfoldable pub mask_bytes : (maxnode : ℕ) → ℕ
mask_bytes maxnode = (maxnode + perlength - 1) % 2 ^ 64 / perlength * perlength % 2 ^ 64

-- What numaget.c leads to: its exit code with the mode and the first word that are printed; or a
-- read or a write of a word of the mask that is not there.
pub data Shown : Type 0 where
  failed : Shown
  shown : (mode word : ℕ) → Shown
  beyond_mask : Shown

-- numaget.c, with the results of the two calls of `get_mempolicy`: the mode, and the mode and the
-- first word of the mask.
unfoldable pub numaget : (maxnode : ℕ) → Option ℕ → Option (ℕ × ℕ) → Shown
unfolding mask_bytes
numaget maxnode none second = failed
numaget maxnode (some mode) none = failed
numaget maxnode (some mode) (some (mode', word)) =
    if leb perlength (mask_bytes maxnode) then shown mode' word else beyond_mask

-- The mask of numaset.c for `set_mempolicy`, in words, `none` for one that was never written; none
-- where the first word is not there.
unfoldable pub numaset_mask : (maxnode mask0 : ℕ) → Option (List (Option ℕ))
unfolding mask_bytes
numaset_mask maxnode mask0 =
    let words = mask_bytes maxnode / perlength in
    if leb 1 words then some (some mask0 ∷ replicate (words - 1) none) else none
