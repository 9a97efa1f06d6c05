-- ===== src/Fileview/Tests.antt =====
-- Runs of fileview.c on a file of three bytes, and its theorems at concrete inputs.
use linux_summary.Base.{
  ℕ, suc, ◌-◌, ◌/◌, ◌*◌, ◌≡◌, refl, inr, some, List, [], ◌∷◌, ◌++◌, ltb, ◌&&◌, if◌then◌else◌,
  length, take, drop, replicate, arith, All, min,
}
use linux_summary.Base.Int.{pos}
use linux_summary.Base.Text.{codes, hex_pad, digits, digit}
use linux_summary.Fileview.Keys.{kb_quit, kb_seek, kb_left, command_of}
use linux_summary.Fileview.Fill.{File, IsFile, fill, fill_lem}
use linux_summary.Fileview.Line.{line, screen}
use linux_summary.Fileview.Line.Width.{IsOutline, screen-IsOutline}
use linux_summary.Fileview.Seek.{seek_loop, blank}
use linux_summary.Fileview.Seek.Edits.{read_out, typed_out, edits, seek_loop-edits}
use linux_summary.Fileview.Seek.Address.{hex}
use linux_summary.Fileview.Navigate.{start, max_position, restore, apply, clamp, round, play}
use linux_summary.Fileview.Navigate.Bounds.{IsValid, IsLimit, round-IsValid}
use linux_summary.Fileview.Navigate.Session.{EndsWell, play_lem}
use linux_summary.Fileview.Navigate.Moves.{round-seek}

-- Three bytes, handed over one at a time.
abbrev small_file : File
small_file = record {
  contents = 0x41 ∷ 0x0A ∷ 0xFF ∷ [];
  chunk = λ o n. if ltb o 3 && ltb 0 n then 1 else 0;
}

small_file-IsFile : IsFile small_file
small_file-IsFile = record {
  asked = λ o n. ground arith;
  left = λ o n. ground arith;
  some_bytes = λ o n h k. ground arith;
}

abbrev first_row : List ℕ
first_row = 0x41 ∷ 0x0A ∷ replicate 14 0xFF

line_bytes :
    line 1 0x120 first_row
    ≡ codes "0000000000120 41 0A FF FF FF FF FF FF FF FF FF FF FF FF FF FF A..............."
unfolding line hex_pad digits digit
line_bytes = refl

line_qwords :
    line 8 0 first_row
    ≡ codes "0000000000000     FFFFFFFFFFFF0A41        FFFFFFFFFFFFFFFF    A..............."
unfolding line hex_pad digits digit
line_qwords = refl

-- Escape in the editor does not leave the position alone: the text is empty, and stands for 0.
escape_seeks_zero :
    seek_loop (b'4' ∷ b'0' ∷ kb_quit ∷ []) blank 0 ≡ some (0 ∷ b'0' ∷ replicate 14 0, [])
unfolding seek_loop
escape_seeks_zero = refl

fill_lem_example :
    let bytes = take 256 (drop 1 small_file.contents) in
    (fill small_file 1 ≡ bytes ++ replicate (256 - length bytes) 0xFF)
    × (length (fill small_file 1) ≡ 256)
fill_lem_example = fill_lem small_file-IsFile 1

screen-IsOutline_example :
    All IsOutline (screen 16 0x100 (replicate 256 0xFF))
    × (length (screen 16 0x100 (replicate 256 0xFF)) ≡ 16)
screen-IsOutline_example =
    screen-IsOutline 16 0x100 (replicate 256 0xFF) (inr (inr (inr (inr refl)))) (omega arith)
      (omega arith) refl

seek_loop-edits_example :
    read_out (seek_loop (b'4' ∷ kb_left ∷ b'2' ∷ b'\n' ∷ []) blank 0)
    ≡ typed_out (edits (b'4' ∷ kb_left ∷ b'2' ∷ b'\n' ∷ []) [])
seek_loop-edits_example = seek_loop-edits (b'4' ∷ kb_left ∷ b'2' ∷ b'\n' ∷ [])

start-IsValid_limit : IsValid (pos 0x2000) start
start-IsValid_limit = ground arith

small-IsLimit : IsLimit (pos 0x2000)
small-IsLimit = ground arith

round-seek_example :
    round (pos 0x2000) start (kb_seek ∷ hex 0x1234 ++ b'\n' ∷ [])
    ≡ some (record (restore start) { position = pos (min (0x1234 / 16 * 16) 0x2000) }, [])
round-seek_example = round-seek 0x2000 0x1234 start [] (omega arith)

after_right : round (pos 0x2000) start (b'W' ∷ []) ≡ some (record start { format = 2 }, [])
unfolding round command_of restore apply clamp
after_right = refl

round-IsValid_example : IsValid (pos 0x2000) (record start { format = 2 })
round-IsValid_example =
    round-IsValid (pos 0x2000) start (b'W' ∷ []) small-IsLimit start-IsValid_limit after_right

play_lem_example :
    EndsWell
      (max_position (length small_file.contents))
      (b'E' ∷ kb_quit ∷ [])
      (play small_file (suc (length (b'E' ∷ kb_quit ∷ []))) start (b'E' ∷ kb_quit ∷ []))
play_lem_example =
    play_lem small_file small_file-IsFile (omega arith) (omega arith) (b'E' ∷ kb_quit ∷ [])
