-- ===== src/Fileview/Line/Width.antt =====
-- Every line that fileview.c draws fits the array `outline[80]`, and shows on a terminal.
use native.Mathlib.Nat.{pow-suc}
use linux_summary.Base.{
  ℕ, zero, suc, ◌+◌, ◌*◌, ◌^◌, ◌≤◌, ◌<◌, ◌≡◌, refl, ap, ◌⊎◌, inl, inr, List, [], ◌∷◌, ◌++◌, map,
  length, take, drop, length-append, length-take, length-drop, arith, All, All-append, All-take,
  All-drop, All-replicate,
}
use linux_summary.Base.Text.{Printable, hex_pad, length-hex_pad, hex_pad-Printable}
use linux_summary.Fileview.Line.{
  little_endian, cells, byte_cell, word_cell, dword_cell, qword_cell, octaword, hex_part, ascii,
  line, lines, screen, blanks,
}

abbrev pub IsByte : ℕ → Type 0
IsByte b = b < 256

-- The five formats that the keys select.
abbrev pub IsFormat : ℕ → Type 0
IsFormat f = (f ≡ 1) ⊎ ((f ≡ 2) ⊎ ((f ≡ 4) ⊎ ((f ≡ 8) ⊎ (f ≡ 16))))

pow_pos : (n : ℕ) → 0 < 256 ^ n
pow_pos zero = omega arith
pow_pos (suc n) = omega (arith, pow-suc 256 n, pow_pos n)

little_endian-lt : (n : ℕ) (bs : List ℕ) → All IsByte bs → little_endian (take n bs) < 256 ^ n
unfolding little_endian
little_endian-lt zero bs h = omega arith
little_endian-lt (suc n) [] h = omega (arith, pow-suc 256 n, pow_pos n)
little_endian-lt (suc n) (b ∷ bs) h = omega (arith, pow-suc 256 n, little_endian-lt n bs h.1)

length-cells :
    (show : ℕ → List ℕ) (size width n : ℕ) (row : List ℕ)
    → ((v : ℕ) → v < 256 ^ size → length (show v) ≡ width)
    → All IsByte row
    → length (cells show size n row) ≡ n * width
unfolding cells
length-cells show size width zero row w h = omega arith
length-cells show size width (suc n) row w h = omega (
  arith,
  length-append (show (little_endian (take size row))) (cells show size n (drop size row)),
  w (little_endian (take size row)) (little_endian-lt size row h),
  length-cells show size width n (drop size row) w (All-drop IsByte size row h),
)

length-byte_cell : (v : ℕ) → v < 256 ^ 1 → length (byte_cell v) ≡ 3
unfolding byte_cell
length-byte_cell v h = omega (arith, length-append (hex_pad 2 v) (blanks 1), length-hex_pad 1 v h)

length-word_cell : (v : ℕ) → v < 256 ^ 2 → length (word_cell v) ≡ 6
unfolding word_cell
length-word_cell v h = omega (arith, length-append (hex_pad 4 v) (blanks 1), length-hex_pad 3 v h)

length-dword_cell : (v : ℕ) → v < 256 ^ 4 → length (dword_cell v) ≡ 12
unfolding dword_cell
length-dword_cell v h = omega (arith, length-append (hex_pad 8 v) (blanks 2), length-hex_pad 7 v h)

length-qword_cell : (v : ℕ) → v < 256 ^ 8 → length (qword_cell v) ≡ 24
unfolding qword_cell
length-qword_cell v h =
    omega (arith, length-append (hex_pad 16 v) (blanks 4), length-hex_pad 15 v h)

length-octaword : (row : List ℕ) → All IsByte row → length (octaword row) ≡ 48
unfolding octaword
length-octaword row h =
    let hi = little_endian (take 8 (drop 8 row)) in
    let lo = little_endian (take 8 row) in
    let tail = blanks 3 ++ blanks 5 in
    omega (
      arith,
      length-append (hex_pad 16 hi) (hex_pad 16 lo ++ tail),
      length-append (hex_pad 16 lo) tail,
      length-hex_pad 15 hi (little_endian-lt 8 (drop 8 row) (All-drop IsByte 8 row h)),
      length-hex_pad 15 lo (little_endian-lt 8 row h),
    )

-- All formats take the same 48 columns.
length-hex_part :
    (f : ℕ) (row : List ℕ) → IsFormat f → All IsByte row → length (hex_part f row) ≡ 48
unfolding hex_part
length-hex_part f row (inl e) h = rw e (length-cells byte_cell 1 3 16 row length-byte_cell h)
length-hex_part f row (inr (inl e)) h = rw e (length-cells word_cell 2 6 8 row length-word_cell h)
length-hex_part f row (inr (inr (inl e))) h =
    rw e (length-cells dword_cell 4 12 4 row length-dword_cell h)
length-hex_part f row (inr (inr (inr (inl e)))) h =
    rw e (length-cells qword_cell 8 24 2 row length-qword_cell h)
length-hex_part f row (inr (inr (inr (inr e)))) h = rw e (length-octaword row h)

length-map : (g : ℕ → ℕ) (xs : List ℕ) → length (map g xs) ≡ length xs
length-map g [] = refl
length-map g (x ∷ xs) = omega (arith, length-map g xs)

length-line :
    (f l : ℕ) (row : List ℕ)
    → IsFormat f
    → l < 16 ^ 13
    → All IsByte row
    → length row ≡ 16
    → length (line f l row) ≡ 78
unfolding line
length-line f l row format small bytes full = omega (
  arith,
  length-append (hex_pad 13 l) (blanks 1 ++ (hex_part f row ++ map ascii row)),
  length-append (hex_part f row) (map ascii row),
  length-hex_pad 12 l small,
  length-hex_part f row format bytes,
  length-map ascii row,
)

Printable-ascii : (row : List ℕ) → All Printable (map ascii row)
unfolding ascii
Printable-ascii [] = tt
Printable-ascii (c ∷ row) = (ground arith, Printable-ascii row)

Printable-blanks : (n : ℕ) → All Printable (blanks n)
Printable-blanks n = All-replicate Printable n 0x20 (omega arith)

-- Blanks round a text that shows.
framed : (m n : ℕ) (xs : List ℕ) → All Printable xs → All Printable (blanks m ++ (xs ++ blanks n))
framed m n xs h =
    All-append Printable (blanks m) (xs ++ blanks n) (Printable-blanks m)
      (All-append Printable xs (blanks n) h (Printable-blanks n))

Printable-cells :
    (show : ℕ → List ℕ) (size n : ℕ) (row : List ℕ)
    → ((v : ℕ) → All Printable (show v))
    → All Printable (cells show size n row)
unfolding cells
Printable-cells show size zero row h = tt
Printable-cells show size (suc n) row h =
    All-append Printable (show (little_endian (take size row))) (cells show size n (drop size row))
      (h (little_endian (take size row))) (Printable-cells show size n (drop size row) h)

Printable-octaword : (row : List ℕ) → All Printable (octaword row)
unfolding octaword
Printable-octaword row =
    let hi = hex_pad 16 (little_endian (take 8 (drop 8 row))) in
    let lo = hex_pad 16 (little_endian (take 8 row)) in
    let tail = blanks 3 ++ blanks 5 in
    All-append Printable (blanks 5) (blanks 3 ++ (hi ++ (lo ++ tail))) (Printable-blanks 5) (
      All-append Printable (blanks 3) (hi ++ (lo ++ tail)) (Printable-blanks 3) (
        All-append Printable hi (lo ++ tail) (hex_pad-Printable 16 _) (
          All-append Printable lo tail (hex_pad-Printable 16 _) (
            All-append Printable (blanks 3) (blanks 5) (Printable-blanks 3) (Printable-blanks 5)))))

Printable-hex_part : (f : ℕ) (row : List ℕ) → IsFormat f → All Printable (hex_part f row)
unfolding hex_part byte_cell word_cell dword_cell qword_cell
Printable-hex_part f row (inl e) =
    rw e (Printable-cells byte_cell 1 16 row λ v. framed 0 1 (hex_pad 2 v) (hex_pad-Printable 2 v))
Printable-hex_part f row (inr (inl e)) =
    rw e (Printable-cells word_cell 2 8 row λ v. framed 1 1 (hex_pad 4 v) (hex_pad-Printable 4 v))
Printable-hex_part f row (inr (inr (inl e))) =
    rw e (Printable-cells dword_cell 4 4 row λ v. framed 2 2 (hex_pad 8 v) (hex_pad-Printable 8 v))
Printable-hex_part f row (inr (inr (inr (inl e)))) =
    rw e
      (Printable-cells qword_cell 8 2 row λ v. framed 4 4 (hex_pad 16 v) (hex_pad-Printable 16 v))
Printable-hex_part f row (inr (inr (inr (inr e)))) = rw e (Printable-octaword row)

Printable-line : (f l : ℕ) (row : List ℕ) → IsFormat f → All Printable (line f l row)
unfolding line
Printable-line f l row format =
    let rest = hex_part f row ++ map ascii row in
    All-append Printable (hex_pad 13 l) (blanks 1 ++ rest) (hex_pad-Printable 13 l) (
      All-append Printable (blanks 1) rest (Printable-blanks 1) (
        All-append Printable (hex_part f row) (map ascii row) (Printable-hex_part f row format)
          (Printable-ascii row)))

-- A text of 78 characters, so that `outline[80]` holds it with its NUL, and that shows.
abbrev pub IsOutline : List ℕ → Type 0
IsOutline text = (length text ≡ 78) × All Printable text

lines-IsOutline :
    (f n l : ℕ) (buffer : List ℕ)
    → IsFormat f
    → l + 16 * n ≤ 16 ^ 13
    → All IsByte buffer
    → length buffer ≡ 16 * n
    → All IsOutline (lines f n l buffer) × (length (lines f n l buffer) ≡ n)
unfolding lines
lines-IsOutline f zero l buffer format small bytes full = (tt, refl)
lines-IsOutline f (suc n) l buffer format small bytes full =
    let row = take 16 buffer in
    let (rest, count) =
      lines-IsOutline f n (l + 16) (drop 16 buffer) format (omega arith)
        (All-drop IsByte 16 buffer bytes) (omega (arith, length-drop 16 buffer)) in
    (
      (
        (
          length-line f l row format (omega arith) (All-take IsByte 16 buffer bytes)
              (omega (arith, length-take 16 buffer)),
          Printable-line f l row format,
        ),
        rest,
      ),
      ap suc count,
    )

-- In every format that a key selects, and at every location up to 16 ^ 13 - 256, the sixteen lines
-- drawn for a buffer of 256 bytes have 78 characters each, all printable: with its NUL each fits
-- `outline[80]`, and no control character of the file reaches the terminal.
pub screen-IsOutline :
    (f l : ℕ) (buffer : List ℕ)
    → IsFormat f
    → l + 256 ≤ 16 ^ 13
    → All IsByte buffer
    → length buffer ≡ 256
    → All IsOutline (screen f l buffer) × (length (screen f l buffer) ≡ 16)
unfolding screen
screen-IsOutline f l buffer format small bytes full =
    lines-IsOutline f 16 l buffer format small bytes full
