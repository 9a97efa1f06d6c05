-- ===== src/SysReg/Length.antt =====
-- sys_reg.c: how much a read writes.
use linux_summary.Base.{
  ℕ, suc, ◌+◌, ◌/◌, ◌%◌, ◌^◌, ◌≤◌, ◌<◌, ◌≡◌, refl, ltb, Bool-cases, inl, inr, List, [], ◌∷◌, ◌++◌,
  length, length-append, arith,
}
use linux_summary.Base.Int.{pos}
use linux_summary.Base.Text.{codes, digits, length-digits_fuel, length-digits_le}
use linux_summary.SysReg.{Registers, hex, short_as_int, text, my_get_info}

some_digit : (f n : ℕ) → 1 ≤ length (digits b'A' 16 (suc f) n)
unfolding digits
some_digit f n = elim (Bool-cases (ltb n 16)) [
  | inl small ↦ rw small (omega arith)
  | inr big ↦ rw (big, length-append) (omega arith)
]

pub record Between (low high : ℕ) (xs : List ℕ) : Type 0 where
  pub least : low ≤ length xs
  pub most : length xs ≤ high

hex-Between : (n : ℕ) → Between 1 16 (hex n)
hex-Between n = record { least = some_digit 15 n; most = length-digits_fuel b'A' 16 16 n }

bit-Between : (n : ℕ) → Between 1 1 (hex (n % 2))
bit-Between n = record {
  least = some_digit 15 (n % 2);
  most = length-digits_le b'A' 16 0 (n % 2) (omega arith);
}

limit-Between : (n : ℕ) → Between 1 8 (hex (short_as_int n))
limit-Between n = record {
  least = some_digit 15 (short_as_int n);
  most = length-digits_le b'A' 16 7 (short_as_int n) (omega arith);
}

text-Between : (xs : List ℕ) → Between (length xs) (length xs) xs
text-Between xs = record { least = omega arith; most = omega arith }

infixl 65 ◌<>◌
◌<>◌ :
    {a b c d : ℕ} {xs ys : List ℕ}
    → Between a b xs
    → Between c d ys
    → Between (a + c) (b + d) (xs ++ ys)
◌<>◌ {xs} {ys} h k = record {
  least = omega (arith, length-append xs ys, h.least, k.least);
  most = omega (arith, length-append xs ys, h.most, k.most);
}

pub length-text : (r : Registers) → Between 77 174 (text r)
unfolding text
length-text r =
    let whole =
      text-Between (codes "cr4=")
      <> hex-Between r.cr4
      <> text-Between (codes "  PSE=")
      <> bit-Between (r.cr4 / 2 ^ 4)
      <> text-Between (codes "  PAE=")
      <> bit-Between (r.cr4 / 2 ^ 5)
      <> text-Between (codes "  \ncr3=")
      <> hex-Between r.cr3
      <> text-Between (codes " cr0=")
      <> hex-Between r.cr0
      <> text-Between (codes "\npgd:0x")
      <> hex-Between r.pgd
      <> text-Between (codes "\npgd pa:0x")
      <> hex-Between r.pgd_pa
      <> text-Between (codes "\ngdtr address:")
      <> hex-Between r.gdtr_address
      <> text-Between (codes ", limit:")
      <> limit-Between r.gdtr_limit
      <> text-Between (codes "\n") in
    record { least = omega (arith, whole.least); most = omega (arith, whole.most) }

-- A read says that it gave the `count` bytes that were asked for, whatever it writes: between 78 and
-- 175 bytes, with the zero. So it writes behind the reader's memory for every count below 78, and
-- gives fewer bytes than it says for every count above 175.
pub my_get_info-writes :
    (r : Registers) (count : ℕ)
    → let (ret, bytes) = my_get_info r count in
      (ret ≡ pos count)
      × (78 ≤ length bytes)
      × (length bytes ≤ 175)
      × (count < 78 → count < length bytes)
      × (175 < count → length bytes < count)
unfolding my_get_info
my_get_info-writes r count =
    let within = length-text r in
    let size = length-append (text r) (0 ∷ []) in
    (
      refl,
      omega (arith, size, within.least),
      omega (arith, size, within.most),
      λ h. omega (arith, h, size, within.least),
      λ h. omega (arith, h, size, within.most),
    )
