-- ===== src/Fileview/Seek/Address.antt =====
-- The address that the editor of fileview.c reads when a number is typed in hexadecimal.
use native.Mathlib.Nat.{pow-suc}
use linux_summary.Base.{
  ℕ, zero, suc, ◌+◌, ◌*◌, ◌/◌, ◌%◌, ◌^◌, ◌<◌, ◌≤◌, ◌≡◌, refl, ap, ◌∙◌, ltb→lt, lt→ltb, false,
  Option, none, some, List, [], ◌∷◌, ◌++◌, ltb, length, arith, Bool-cases, inl, inr, All,
  All-append, append_assoc, append-nil,
}
use linux_summary.Base.Int.{pos}
use linux_summary.Base.Strto.{
  c_string, digit_value, skip_space, sign, skip_0x, scan_digits, strtoull16,
}
use linux_summary.Base.Text.{digit, digits, length-digits_le}
use linux_summary.Fileview.Seek.{seek_loop, blank, address}
use linux_summary.Fileview.Seek.Edits.{
  Typed, rev, edit, edits, editing, read_out, typed_out, seek_loop-edits,
}

-- A character that `%X` prints, as the editor and `strtoull` see it.
abbrev IsDigit : ℕ → Type 0
IsDigit c = (digit_value c < 16) × (0x30 ≤ c) × (c ≤ 0x46)

digit-IsDigit : (d : ℕ) → d < 16 → IsDigit (digit b'A' d)
unfolding digit digit_value
digit-IsDigit d h = ground arith

digit_value-digit : (d : ℕ) → d < 16 → digit_value (digit b'A' d) ≡ d
unfolding digit digit_value
digit_value-digit d h = ground arith

-- The digits of `n` in upper case, most significant first.
abbrev pub hex : ℕ → List ℕ
hex n = digits b'A' 16 16 n

digits-IsDigit : (f n : ℕ) → All IsDigit (digits b'A' 16 f n)
unfolding digits
digits-IsDigit zero n = tt
digits-IsDigit (suc f) n = elim (Bool-cases (ltb n 16)) [
  | inl small ↦ rw small (digit-IsDigit n (ltb→lt n 16 small), tt)
  | inr big ↦ rw big (
      All-append IsDigit (digits b'A' 16 f (n / 16)) _ (digits-IsDigit f (n / 16))
        (digit-IsDigit (n % 16) (omega arith), tt))
]

scan_digits-append :
    (acc c : ℕ) (xs : List ℕ)
    → All IsDigit xs
    → digit_value c < 16
    → scan_digits 16 acc (xs ++ (c ∷ [])) ≡ ((scan_digits 16 acc xs).0 * 16 + digit_value c, [])
unfolding scan_digits
scan_digits-append acc c [] h k = rw (lt→ltb _ _ k)
scan_digits-append acc c (x ∷ xs) h k =
    rw (lt→ltb _ _ h.0.0) (scan_digits-append (acc * 16 + digit_value x) c xs h.1 k)

-- Reading the digits of a number gives the number.
scan_digits-digits :
    (f n : ℕ) → n < 16 ^ suc f → (scan_digits 16 0 (digits b'A' 16 (suc f) n)).0 ≡ n
unfolding digits scan_digits
scan_digits-digits zero n h =
    let d : n < 16 = omega arith in
    rw (lt→ltb n 16 d, digit_value-digit n d, lt→ltb n 16 d) (omega arith)
scan_digits-digits (suc f) n h = elim (Bool-cases (ltb n 16)) [
  | inl small ↦ let d = ltb→lt n 16 small in rw (small, digit_value-digit n d, small) (omega arith)
  | inr big ↦
      let rest = digits b'A' 16 (suc f) (n / 16) in
      let d = digit-IsDigit (n % 16) (omega arith) in
      rw
        (big, scan_digits-append 0 (digit b'A' (n % 16)) rest (digits-IsDigit (suc f) (n / 16)) d.0)
        (omega (
          arith,
          scan_digits-digits f (n / 16) (omega (arith, pow-suc 16 (suc f))),
          digit_value-digit (n % 16) (omega arith),
        ))
]

-- Digits pass through the blank, sign and prefix tests of `strtoull`.
skip_space-digits : (xs : List ℕ) → All IsDigit xs → skip_space xs ≡ xs
unfolding skip_space
skip_space-digits [] h = refl
skip_space-digits (x ∷ xs) h = ground arith

sign-digits : (xs : List ℕ) → All IsDigit xs → sign xs ≡ (false, xs)
unfolding sign
sign-digits [] h = refl
sign-digits (x ∷ xs) h = ground arith

skip_0x-digits : (xs : List ℕ) → All IsDigit xs → skip_0x xs ≡ xs
unfolding skip_0x
skip_0x-digits [] h = refl
skip_0x-digits (x ∷ []) h = refl
skip_0x-digits (x ∷ y ∷ []) h = refl
skip_0x-digits (x ∷ y ∷ z ∷ xs) h = ground arith

strtoull16-digits :
    (xs : List ℕ)
    → All IsDigit xs
    → (scan_digits 16 0 xs).0 < 2 ^ 64
    → strtoull16 xs ≡ (scan_digits 16 0 xs).0
unfolding strtoull16
strtoull16-digits xs h k =
    rw (skip_space-digits xs h, sign-digits xs h, skip_0x-digits xs h) (ground arith)

address-hex :
    (n : ℕ) (b : List ℕ) → n < 16 ^ 14 → c_string b ≡ hex n → address b ≡ pos (n / 16 * 16)
unfolding address
address-hex n b h e = rw e (
    rw
      (strtoull16-digits (hex n) (digits-IsDigit 16 n)
        (omega (arith, scan_digits-digits 15 n (omega arith))))
      (rw (scan_digits-digits 15 n (omega arith)) (ground arith)))

edit-digit : (c : ℕ) (t : Typed) → IsDigit c → edit (c % 2 ^ 24) t ≡ editing (c ∷ t)
unfolding edit
edit-digit c t h = let same : c % 2 ^ 24 ≡ c = omega arith in rw same (ground arith)

-- Typing digits appends them.
edits-digits :
    (xs : List ℕ) (t : Typed) (rest : List ℕ)
    → All IsDigit xs
    → length xs + length t < 15
    → edits (xs ++ b'\n' ∷ rest) t ≡ some (some (rev t ++ xs), rest)
unfolding edits
edits-digits [] t rest h k = rw (lt→ltb (length t) 15 (omega arith), append-nil)
edits-digits (x ∷ xs) t rest h k =
    rw (lt→ltb (length t) 15 (omega arith), edit-digit x t h.0)
      (edits-digits xs (x ∷ t) rest h.1 (omega arith)
        ∙ ap (λ s. some (some s, rest)) (append_assoc (rev t) (x ∷ []) xs))

read_out-some :
    (o : Option (List ℕ × List ℕ)) {t rest : List ℕ}
    → read_out o ≡ some (t, rest)
    → (b : List ℕ) × (o ≡ some (b, rest)) × (c_string b ≡ t)
read_out-some none e = absurd (cc)
read_out-some (some (b, keys)) e = (b, cc, cc)

-- The editor, given the hexadecimal digits of a number and Enter, gives back a buffer that stands
-- for the number, rounded down to a paragraph.
pub seek_loop-hex :
    (n : ℕ) (rest : List ℕ)
    → n < 16 ^ 14
    → (b : List ℕ) × (seek_loop (hex n ++ b'\n' ∷ rest) blank 0 ≡ some (b, rest))
      × (address b ≡ pos (n / 16 * 16))
seek_loop-hex n rest h =
    let typed =
      edits-digits (hex n) [] rest (digits-IsDigit 16 n)
        (omega (arith, length-digits_le b'A' 16 13 n h)) in
    let (b, e, text) =
      read_out-some (seek_loop (hex n ++ b'\n' ∷ rest) blank 0)
        (seek_loop-edits (hex n ++ b'\n' ∷ rest) ∙ ap typed_out typed) in
    (b, e, address-hex n b h text)
