-- ===== src/Fileview/Line.antt =====
-- The lines that fileview.c draws: a location, sixteen bytes in the selected format, and the bytes
-- as characters.
pub mod Width
use linux_summary.Base.{
  ℕ, zero, suc, ◌+◌, ◌*◌, ◌||◌, List, [], ◌∷◌, ◌++◌, ltb, ◌==◌, if◌then◌else◌, map, take, drop,
  replicate,
}
use linux_summary.Base.Text.{hex_pad}

abbrev pub buf_wide : ℕ
buf_wide = 16

abbrev pub buf_high : ℕ
buf_high = 16

abbrev pub blanks : ℕ → List ℕ
blanks n = replicate n 0x20

-- A little-endian number, as the processor reads one through a pointer into the buffer.
unfoldable pub little_endian : List ℕ → ℕ
little_endian [] = 0
little_endian (b ∷ bs) = b + 256 * little_endian bs

-- `for (j = 0; j < n; j++)` over units of `size` bytes: what `show` prints of each.
unfoldable pub cells : (ℕ → List ℕ) → (size n : ℕ) → List ℕ → List ℕ
unfolding little_endian
cells show size zero row = []
cells show size (suc n) row =
    show (little_endian (take size row)) ++ cells show size n (drop size row)

unfoldable pub byte_cell : ℕ → List ℕ
byte_cell n = hex_pad 2 n ++ blanks 1

unfoldable pub word_cell : ℕ → List ℕ
word_cell n = blanks 1 ++ (hex_pad 4 n ++ blanks 1)

unfoldable pub dword_cell : ℕ → List ℕ
dword_cell n = blanks 2 ++ (hex_pad 8 n ++ blanks 2)

unfoldable pub qword_cell : ℕ → List ℕ
qword_cell n = blanks 4 ++ (hex_pad 16 n ++ blanks 4)

-- The high quadword stands before the low one.
unfoldable pub octaword : List ℕ → List ℕ
unfolding little_endian
octaword row =
    blanks 5
    ++ (blanks 3
        ++ (hex_pad 16 (little_endian (take 8 (drop 8 row)))
            ++ (hex_pad 16 (little_endian (take 8 row)) ++ (blanks 3 ++ blanks 5))))

-- The switch on the format; any other format draws nothing.
unfoldable pub hex_part : ℕ → List ℕ → List ℕ
unfolding cells byte_cell word_cell dword_cell qword_cell octaword
hex_part format row =
    if format == 1
    then cells byte_cell 1 16 row
    else (if format == 2
        then cells word_cell 2 8 row
        else (if format == 4
            then cells dword_cell 4 4 row
            else (if format == 8
                then cells qword_cell 8 2 row
                else (if format == 16 then octaword row else []))))

-- A byte above 0x7F is a negative `char`, which the first test of the code catches; here it is the
-- second.
unfoldable pub ascii : ℕ → ℕ
ascii c = if ltb c 0x20 || ltb 0x7E c then b'.' else c

-- `outline` for one row
unfoldable pub line : ℕ → ℕ → List ℕ → List ℕ
unfolding hex_part ascii
line format location row =
    hex_pad 13 location ++ (blanks 1 ++ (hex_part format row ++ map ascii row))

-- `for (i = 0; i < BUFHIGH; i++)`, with `location` advanced by a row each time.
unfoldable pub lines : ℕ → (n location : ℕ) → List ℕ → List (List ℕ)
unfolding line
lines format zero location buffer = []
lines format (suc n) location buffer =
    line format location (take buf_wide buffer)
    ∷ lines format n (location + buf_wide) (drop buf_wide buffer)

unfoldable pub screen : ℕ → ℕ → List ℕ → List (List ℕ)
unfolding lines
screen format location buffer = lines format buf_high location buffer
