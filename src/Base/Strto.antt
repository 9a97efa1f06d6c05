-- ===== src/Base/Strto.antt =====
-- What the programs use of `strtol` and `strtoull` of the C library.
use linux_summary.Base.Tests.{ltb, leb, ◌==◌, if◌then◌else◌, Bool-cases}
use Prim.Native.Nat.{ℕ, zero, suc, ◌+◌, ◌-◌, ◌*◌, ◌/◌, ◌%◌, ◌^◌, ◌<◌}
use mathlib.Core.Logic.{inl, inr}
use linux_summary.Base.Text.{digit, digits}
use mathlib.Core.Bool.{Bool, true, false, ◌&&◌, ◌||◌}
use mathlib.Core.List.{List, [], ◌∷◌, ◌++◌}
use mathlib.Core.Path.{◌≡◌, refl}
use native.Mathlib.Omega.{arith}

-- The text in a buffer: what stands before the first NUL.
unfoldable pub c_string : List ℕ → List ℕ
c_string [] = []
c_string (c ∷ cs) = if c == 0 then [] else c ∷ c_string cs

-- Whether a NUL ends the text within the buffer.
abbrev pub has_nul : List ℕ → Bool
has_nul [] = false
has_nul (c ∷ cs) = (c == 0) || has_nul cs

pub has_nul-append : (xs ys : List ℕ) → has_nul (xs ++ ys) ≡ (has_nul xs || has_nul ys)
has_nul-append [] ys = refl
has_nul-append (x ∷ xs) ys = ground (arith, has_nul-append xs ys)

-- The text in a buffer that a NUL follows.
pub c_string-nul : (text rest : List ℕ) → has_nul text ≡ false → c_string (text ++ 0 ∷ rest) ≡ text
unfolding c_string
c_string-nul [] rest h = refl
c_string-nul (c ∷ text) rest h = ground (arith, c_string-nul text rest)

pub has_nul-nul : (text rest : List ℕ) → has_nul (text ++ 0 ∷ rest) ≡ true
has_nul-nul [] rest = refl
has_nul-nul (c ∷ text) rest = ground (arith, has_nul-nul text rest)

unfoldable pub is_space : ℕ → Bool
is_space c = (c == 32) || (leb 9 c && leb c 13)

-- The value of a digit or letter; 255 for any other character.
unfoldable pub digit_value : ℕ → ℕ
digit_value c =
    if leb b'0' c && leb c b'9'
    then c - b'0'
    else (if leb b'A' c && leb c b'Z'
        then c - b'A' + 10
        else (if leb b'a' c && leb c b'z' then c - b'a' + 10 else 255))

unfoldable pub skip_space : List ℕ → List ℕ
unfolding is_space
skip_space [] = []
skip_space (c ∷ cs) = if is_space c then skip_space cs else c ∷ cs

-- An optional sign: whether it is a minus, and the rest.
unfoldable pub sign : List ℕ → Bool × List ℕ
sign [] = (false, [])
sign (c ∷ cs) =
    if c == b'-' then (true, cs) else (if c == b'+' then (false, cs) else (false, c ∷ cs))

-- The optional prefix of base 16, which counts only before a digit.
unfoldable pub skip_0x : List ℕ → List ℕ
unfolding digit_value
skip_0x (z ∷ x ∷ d ∷ cs) =
    if (z == b'0') && ((x == b'x') || (x == b'X')) && ltb (digit_value d) 16
    then d ∷ cs
    else z ∷ x ∷ d ∷ cs
skip_0x cs = cs

-- The number that the leading digits spell, from `acc`, and what follows them.
unfoldable pub scan_digits : ℕ → ℕ → List ℕ → ℕ × List ℕ
unfolding digit_value
scan_digits b acc [] = (acc, [])
scan_digits b acc (c ∷ cs) =
    let more = scan_digits b (acc * b + digit_value c) cs in
    if ltb (digit_value c) b then more else (acc, c ∷ cs)

-- `strtoull(s, NULL, 16)`: a minus negates modulo 2 ^ 64, an overflow gives ULLONG_MAX.
unfoldable pub strtoull16 : List ℕ → ℕ
unfolding skip_space sign skip_0x scan_digits
strtoull16 s =
    let (minus, s') = sign (skip_space s) in
    let v = (scan_digits 16 0 (skip_0x s')).0 in
    if leb (2 ^ 64) v then 2 ^ 64 - 1 else (if minus then (2 ^ 64 - v) % 2 ^ 64 else v)

digit_not_nul : (a d : ℕ) → 0 < a → (digit a d == 0) ≡ false
unfolding digit
digit_not_nul a d h = ground arith

pub has_nul-digits : (a b f n : ℕ) → 0 < a → has_nul (digits a b f n) ≡ false
unfolding digits
has_nul-digits a b zero n h = refl
has_nul-digits a b (suc f) n h = elim (Bool-cases (ltb n b)) [
  | inl small ↦ rw (small, digit_not_nul a n h) refl
  | inr big ↦
      rw
        (
          big,
          has_nul-append (digits a b f (n / b)) (digit a (n % b) ∷ []),
          has_nul-digits a b f (n / b) h,
          digit_not_nul a (n % b) h,
        )
        refl
]
