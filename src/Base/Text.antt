-- ===== src/Base/Text.antt =====
-- C texts as lists of character codes, and what the programs use of the C library's formatting.
use Prim.Native.Nat.{ℕ, zero, suc, ◌+◌, ◌-◌, ◌/◌, ◌%◌, ◌^◌, ◌≤◌, ◌<◌}
use Prim.Native.Char.{code}
use Prim.Native.String.{String}
use mathlib.Core.Path.{◌≡◌}
use mathlib.Core.Logic.{inl, inr}
use mathlib.Core.List.{List, [], ◌∷◌, ◌++◌}
use native.Mathlib.Omega.{arith}
use native.Mathlib.Nat.{pow-suc}
use linux_summary.Base.Tests.{ltb, ltb→lt, ltb→le, if◌then◌else◌, Bool-cases}
use linux_summary.Base.Lists.{
  length, replicate, length-append, length-replicate, All, All-append, All-replicate,
}

abbrev pub codes : String → List ℕ
codes String.[] = []
codes (String.◌∷◌ c s) = code c ∷ codes s

-- A character that a terminal shows.
abbrev pub Printable : ℕ → Type 0
Printable c = (0x20 ≤ c) × (c ≤ 0x7E)

-- A digit of `%X` (`a` is the letter for ten: `A` here, `a` for `%x`).
unfoldable pub digit : ℕ → ℕ → ℕ
digit a d = if ltb d 10 then b'0' + d else a + (d - 10)

-- The digits of `n` in base `b`, most significant first; `f` digits at most.
unfoldable pub digits : ℕ → ℕ → ℕ → ℕ → List ℕ
digits a b zero n = []
digits a b (suc f) n =
    let rest = digits a b f (n / b) in
    if ltb n b then digit a n ∷ [] else rest ++ (digit a (n % b) ∷ [])

-- `%0wX` of a 64-bit value: at least `w` digits, zeros in front.
unfoldable pub hex_pad : ℕ → ℕ → List ℕ
unfolding digits
hex_pad w n = let ds = digits b'A' 16 16 n in replicate (w - length ds) b'0' ++ ds

pub length-digits_le : (a f w n : ℕ) → n < 16 ^ suc w → length (digits a 16 f n) ≤ suc w
unfolding digits
length-digits_le a zero w n h = omega arith
length-digits_le a (suc f) zero n h = elim (Bool-cases (ltb n 16)) [
  | inl small ↦ rw small (omega arith)
  | inr big ↦ absurd (omega (arith, ltb→le n 16 big))
]
length-digits_le a (suc f) (suc w) n h = elim (Bool-cases (ltb n 16)) [
  | inl small ↦ rw small (omega arith)
  | inr big ↦
      rw (big, length-append)
        (omega (arith, length-digits_le a f w (n / 16) (omega (arith, pow-suc 16 (suc w)))))
]

-- A value below 16 ^ w prints in exactly `w` characters.
pub length-hex_pad : (w n : ℕ) → n < 16 ^ suc w → length (hex_pad (suc w) n) ≡ suc w
unfolding hex_pad
length-hex_pad w n h =
    let ds = digits b'A' 16 16 n in
    omega (
      arith,
      length-append (replicate (suc w - length ds) b'0') ds,
      length-replicate {A = ℕ} (suc w - length ds) b'0',
      length-digits_le b'A' 16 w n h,
    )

digit-Printable : (d : ℕ) → d < 16 → Printable (digit b'A' d)
unfolding digit
digit-Printable d h = ground arith

digits-Printable : (f n : ℕ) → All Printable (digits b'A' 16 f n)
unfolding digits
digits-Printable zero n = tt
digits-Printable (suc f) n = elim (Bool-cases (ltb n 16)) [
  | inl small ↦ rw small (digit-Printable n (ltb→lt n 16 small), tt)
  | inr big ↦ rw big (
      All-append Printable (digits b'A' 16 f (n / 16)) _ (digits-Printable f (n / 16))
        (digit-Printable (n % 16) (omega arith), tt))
]

pub hex_pad-Printable : (w n : ℕ) → All Printable (hex_pad w n)
unfolding hex_pad
hex_pad-Printable w n =
    let ds = digits b'A' 16 16 n in
    All-append Printable (replicate (w - length ds) b'0') ds
      (All-replicate Printable (w - length ds) b'0' (omega arith)) (digits-Printable 16 n)

-- No number has more digits than it is given fuel.
pub length-digits_fuel : (a b f n : ℕ) → length (digits a b f n) ≤ f
unfolding digits
length-digits_fuel a b zero n = omega arith
length-digits_fuel a b (suc f) n = elim (Bool-cases (ltb n b)) [
  | inl small ↦ rw small (omega arith)
  | inr big ↦ rw (big, length-append) (omega (arith, length-digits_fuel a b f (n / b)))
]

-- The zeros in front do not make a value longer than sixteen digits.
pub length-hex_pad_le : (w n : ℕ) → w ≤ 16 → length (hex_pad w n) ≤ 16
unfolding hex_pad
length-hex_pad_le w n h =
    let ds = digits b'A' 16 16 n in
    omega (
      arith,
      length-append (replicate (w - length ds) b'0') ds,
      length-replicate {A = ℕ} (w - length ds) b'0',
      length-digits_fuel b'A' 16 16 n,
    )
