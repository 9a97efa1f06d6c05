-- ===== src/Procfs/Write.antt =====
-- What a write of a number does.
use linux_summary.Base.{
  ℕ, suc, ◌-◌, ◌≤◌, ◌<◌, ◌≡◌, ◌≢◌, refl, true, false, Option, none, some, List, [], ◌∷◌, ◌++◌, take,
  replicate, length, All, arith, lt→ltb, le→ltb, take-length_le, append-nil, All-take,
}
use linux_summary.Base.Int.{ℤ, pos}
use linux_summary.Base.Strto.{c_string, has_nul}
use linux_summary.Procfs.{msg_len, message, has_nul, write_number}

abbrev pub IsText : List ℕ → Type 0
IsText xs = All (λ c. c ≢ 0) xs

c_string-text : (xs : List ℕ) (n : ℕ) → IsText xs → c_string (xs ++ replicate (suc n) 0) ≡ xs
unfolding c_string
c_string-text [] n h = refl
c_string-text (x ∷ xs) n h = ground (arith, c_string-text xs n h.1, h.0)

has_nul-text : (xs : List ℕ) (n : ℕ) → has_nul (xs ++ replicate (suc n) 0) ≡ true
has_nul-text [] n = refl
has_nul-text (x ∷ xs) n = ground (arith, has_nul-text xs n)

no_nul : (xs : List ℕ) → IsText xs → has_nul xs ≡ false
no_nul [] h = refl
no_nul (x ∷ xs) h = ground (arith, no_nul xs h.1, h.0)

-- The value that a text leaves in the variable.
abbrev pub parsed_or : (List ℕ → ℕ → Option ℤ) → ℕ → List ℕ → ℤ → ℤ
parsed_or kstrtol base text v = elim (kstrtol text base) [ none ↦ v | some n ↦ n ]

pub write_number-short :
    (kstrtol : List ℕ → ℕ → Option ℤ) (base : ℕ) (text : List ℕ) (v : ℤ)
    → IsText text
    → length text < msg_len
    → write_number kstrtol base (record { count = length text; bytes = text; fails = false }) v
      ≡ some (pos (length text), parsed_or kstrtol base text v)
unfolding write_number message
write_number-short kstrtol base text v h short =
    let n = msg_len - length text - 1 in
    let room : msg_len - length text ≡ suc n = omega arith in
    rw
      (
        lt→ltb (length text) msg_len short,
        take-length_le (length text) text (omega arith),
        room,
        has_nul-text text n,
        c_string-text text n h,
      )
      refl

pub write_number-long :
    (kstrtol : List ℕ → ℕ → Option ℤ) (base : ℕ) (text : List ℕ) (v : ℤ)
    → IsText text
    → msg_len ≤ length text
    → write_number kstrtol base (record { count = length text; bytes = text; fails = false }) v
      ≡ none
unfolding write_number message
write_number-long kstrtol base text v h long =
    rw
      (
        le→ltb (length text) msg_len long,
        append-nil,
        no_nul (take msg_len text) (All-take (λ c. c ≢ 0) msg_len text h),
      )
      refl
