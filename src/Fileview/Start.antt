-- ===== src/Fileview/Start.antt =====
-- The start of fileview.c: its argument, the file, and the legend round the screen.
use linux_summary.Base.{
  ℕ, suc, ◌+◌, ◌-◌, ◌/◌, ◌%◌, ◌^◌, ◌≤◌, ◌<◌, ◌≡◌, refl, Bool, true, if◌then◌else◌, Option, none,
  some, List, [], ◌∷◌, ◌++◌, length, take, length-append, length-take, arith,
}
use linux_summary.Base.Int.{ℤ, pos, signed32, ltb_ℤ}
use linux_summary.Base.Text.{codes, digits, hex_pad, length-digits_fuel, length-hex_pad_le}
use linux_summary.Fileview.Fill.{File}
use linux_summary.Fileview.Navigate.{start, Outcome, play}

abbrev pub max_name : ℕ
max_name = 80

-- `strncpy` into `filename`, which is zero: the characters that `open` gets.
abbrev pub filename : List ℕ → List ℕ
filename arg = take max_name arg

-- `k = (77 - strlen(...)) / 2`: the difference is of type `size_t`, and `k` an `int`.
unfoldable pub title_column : List ℕ → ℤ
title_column text = signed32 ((2 ^ 64 + 77 - length text) % 2 ^ 64 / 2 % 2 ^ 32)

-- `k = 78 - strlen(infomsg)`
unfoldable pub info_column : List ℕ → ℤ
info_column text = signed32 ((2 ^ 64 + 78 - length text) % 2 ^ 64 % 2 ^ 32)

-- `sprintf` into `infomsg`
unfoldable pub info_msg : ℕ → List ℕ
info_msg filesize =
    codes "filesize: "
    ++ digits b'a' 10 20 filesize
    ++ codes " (=0x"
    ++ hex_pad 13 filesize
    ++ codes ")"

-- A text of the legend at a row and a column.
pub record Label : Type 0 where
  pub row : ℕ
  pub column : ℤ
  pub text : List ℕ

unfoldable pub legend : (name : List ℕ) (filesize : ℕ) → List Label
unfolding title_column info_column info_msg
legend name filesize =
    record { row = 1; column = title_column (codes "FILEVIEW"); text = codes " FILEVIEW " }
    ∷ record { row = 3; column = title_column name; text = b'\'' ∷ name ++ b'\'' ∷ [] }
    ∷ record { row = 24; column = info_column (info_msg filesize); text = info_msg filesize }
    ∷ []

-- The exits before the loop, or the legend and the session.
pub data Shown : Type 0 where
  argument_needed not_opened no_end_of_file : Shown
  session : List Label → Outcome → Shown

-- The program. `open` gives the file, and `seeks` says whether `lseek` finds its end.
unfoldable pub main :
    (open_file : List ℕ → Option File) (seeks : Bool) → Option (List ℕ) → (keys : List ℕ) → Shown
unfolding legend
main open_file seeks none keys = argument_needed
main open_file seeks (some arg) keys = elim (open_file (filename arg)) [
  | none ↦ not_opened
  | some file ↦
      (if seeks
        then session (legend (filename arg) (length file.contents))
            (play file (suc (length keys)) start keys)
        else no_end_of_file)
]

length-info_msg : (filesize : ℕ) → length (info_msg filesize) ≤ 52
unfolding info_msg
length-info_msg n =
    let ds = digits b'a' 10 20 n in
    let hs = hex_pad 13 n in
    omega (
      arith,
      length-append (codes "filesize: " ++ ds ++ codes " (=0x" ++ hs) (codes ")"),
      length-append (codes "filesize: " ++ ds ++ codes " (=0x") hs,
      length-append (codes "filesize: " ++ ds) (codes " (=0x"),
      length-append (codes "filesize: ") ds,
      length-digits_fuel b'a' 10 20 n,
      length-hex_pad_le 13 n (omega arith),
    )

info_column-fits : (text : List ℕ) → length text ≤ 78 → info_column text ≡ pos (78 - length text)
unfolding info_column
info_column-fits text h = ground arith

title_column-fits :
    (text : List ℕ)
    → length text ≤ 80
    → (length text ≤ 77 → title_column text ≡ pos ((77 - length text) / 2))
      × (77 < length text → ltb_ℤ (title_column text) (pos 0) ≡ true)
unfolding title_column
title_column-fits text h = (λ fits. ground arith, λ long. ground arith)

-- For any size of 64 bits the message fits into the 80 bytes of `infomsg`, and ends in column 77 of
-- its row. A name of up to 77 characters is put in the middle of its row; for the longer ones, up to
-- the 80 that are kept, the column is negative.
pub legend_fits :
    (arg : List ℕ) (filesize : ℕ)
    → let msg = info_msg filesize in
      let name = filename arg in
      (legend name filesize
        ≡ record { row = 1; column = pos 34; text = codes " FILEVIEW " }
          ∷ record { row = 3; column = title_column name; text = b'\'' ∷ name ++ b'\'' ∷ [] }
          ∷ record { row = 24; column = pos (78 - length msg); text = msg }
          ∷ [])
      × (length msg < 80)
      × (length name ≤ 77 → title_column name ≡ pos ((77 - length name) / 2))
      × (77 < length name → ltb_ℤ (title_column name) (pos 0) ≡ true)
unfolding legend
legend_fits arg filesize =
    let msg = info_msg filesize in
    let small = length-info_msg filesize in
    let title = title_column-fits (filename arg) (omega (arith, length-take max_name arg)) in
    let head = (title_column-fits (codes "FILEVIEW") (omega arith)).0 (omega arith) in
    (
      rw (legend, info_column-fits msg (omega (arith, small)), head) refl,
      omega (arith, small),
      title.0,
      title.1,
    )
