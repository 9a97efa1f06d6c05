-- ===== src/Dram/Seek.antt =====
-- `my_llseek` of dram.c against seeking over the integers.
use linux_summary.Base.{ℕ, ◌^◌, ◌<◌, ◌≡◌, ◌-◌, ◌⊎◌, ◌||◌, arith, ◌==◌, if◌then◌else◌}
use linux_summary.Base.Int.{ℤ, pos, negsuc, ◌+ℤ◌, ◌≤ℤ◌, ltb_ℤ, einval}
use linux_summary.Dram.{Dram, new_position, my_llseek}

-- What seeking means, with no bound on the integers: where the offset counts from.
abbrev pub base : Dram → ℤ → ℕ → ℤ
base dram f_pos whence =
    if whence == 0 then pos 0 else (if whence == 1 then f_pos else pos dram.size)

-- The target if it lies in the memory, else EINVAL and the old position.
abbrev pub seek_to : Dram → (f_pos target : ℤ) → ℤ × ℤ
seek_to dram f_pos target =
    if ltb_ℤ target (pos 0) || ltb_ℤ (pos dram.size) target
    then (einval, f_pos)
    else (target, target)

-- For a position in the memory, a memory below 2 ^ 63 bytes and any 64-bit offset, the three ways
-- of seeking do what they mean, though the sum may wrap: a sum that wraps is refused, as the true
-- one is.
pub my_llseek_lem :
    (dram : Dram) (f offset : ℤ) (whence : ℕ)
    → dram.size < 2 ^ 63
    → pos 0 ≤ℤ f
    → f ≤ℤ pos dram.size
    → negsuc (2 ^ 63 - 1) ≤ℤ offset
    → offset ≤ℤ pos (2 ^ 63 - 1)
    → whence < 3
    → my_llseek dram f offset whence ≡ seek_to dram f (base dram f whence +ℤ offset)
unfolding my_llseek new_position
my_llseek_lem dram f offset whence s low high lo hi w = ground arith

other_whence :
    (dram : Dram) (f offset : ℤ) (whence : ℕ)
    → 2 < whence
    → new_position dram f offset whence ≡ negsuc 0
unfolding new_position
other_whence dram f offset whence h = ground arith

-- Whatever it is called with, `my_llseek` leaves a position in the memory in the memory, and
-- answers either EINVAL, with the position left alone, or the new position; for a `whence` above 2
-- it is EINVAL.
pub my_llseek-range :
    (dram : Dram) (f offset : ℤ) (whence : ℕ)
    → pos 0 ≤ℤ f
    → f ≤ℤ pos dram.size
    → let (ret, f') = my_llseek dram f offset whence in
      (pos 0 ≤ℤ f')
      × (f' ≤ℤ pos dram.size)
      × ((ret ≡ einval) × (f' ≡ f) ⊎ (ret ≡ f'))
      × (2 < whence → ret ≡ einval)
unfolding my_llseek
my_llseek-range dram f offset whence low high = ground (arith, other_whence dram f offset whence)
