-- ===== src/Fileview/Navigate.antt =====
-- The main loop of fileview.c: its variables, one round of it, and a session over the keys to come.
pub mod Bounds
pub mod Session
pub mod Taken
pub mod Moves
use linux_summary.Base.{
  ℕ, zero, suc, ◌+◌, ◌*◌, ◌/◌, ◌%◌, ◌^◌, Bool, true, false, Option, none, some, List, [], ◌∷◌, ltb,
  ◌==◌, if◌then◌else◌, length,
}
use linux_summary.Base.Int.{ℤ, pos, negsuc, pos_part, ◌+ℤ◌, ◌-ℤ◌, ltb_ℤ, clear_low4}
use linux_summary.Fileview.Keys.{
  Command, home, end, line_down, line_up, page_down, page_up, narrower, wider, format, seek, quit,
  other, command_of,
}
use linux_summary.Fileview.Fill.{File, fill}
use linux_summary.Fileview.Line.{screen}
use linux_summary.Fileview.Seek.{seek_loop, blank, address}

abbrev pub incr_min : ℕ
incr_min = 2 ^ 8

abbrev pub incr_max : ℕ
incr_max = 2 ^ 36

-- The loop's variables that live from one round to the next.
pub record State : Type 0 where
  pub page_incr : ℕ
  pub position : ℤ
  pub format : ℕ
  pub done : Bool

abbrev pub start : State
start = record { page_incr = incr_min; position = pos 0; format = 1; done = false }

-- `posmax`: the paragraph from which on a page shows the end of a file of this size.
unfoldable pub max_position : ℕ → ℤ
unfolding ◌-ℤ◌
max_position size = let m = clear_low4 (pos size -ℤ pos 241) in if ltb_ℤ m (pos 0) then pos 0 else m

-- `pageincr`, restored to its bounds at the head of a round.
unfoldable pub restore : State → State
restore s = record s {
  page_incr =
      if s.page_incr == 0
      then incr_max
      else (if ltb s.page_incr incr_min
          then incr_min
          else (if ltb incr_max s.page_incr then incr_max else s.page_incr));
}

-- The switch on the key, with `posmax` and the keys behind it; `none` while the editor waits.
unfoldable pub apply : ℤ → Command → State → List ℕ → Option (State × List ℕ)
unfolding ◌+ℤ◌ ◌-ℤ◌
apply posmax home s keys = some (record s { position = pos 0 }, keys)
apply posmax end s keys = some (record s { position = posmax }, keys)
apply posmax line_down s keys = some (record s { position = s.position +ℤ pos 16 }, keys)
apply posmax line_up s keys = some (record s { position = s.position -ℤ pos 16 }, keys)
apply posmax page_down s keys = some (record s { position = s.position +ℤ pos s.page_incr }, keys)
apply posmax page_up s keys = some (record s { position = s.position -ℤ pos s.page_incr }, keys)
apply posmax narrower s keys = some (record s { page_incr = s.page_incr / 16 }, keys)
apply posmax wider s keys = some (record s { page_incr = s.page_incr * 16 }, keys)
apply posmax (format f) s keys = some (record s { format = f }, keys)
apply posmax seek s keys = elim (seek_loop keys blank 0) [
  | none ↦ none
  | some (b, rest) ↦ some (record s { position = address b }, rest)
]
apply posmax quit s keys = some (record s { done = true }, keys)
apply posmax other s keys = some (s, keys)

-- The position, held within its bounds at the end of a round.
unfoldable pub clamp : ℤ → State → State
clamp posmax s =
    let low = if ltb_ℤ s.position (pos 0) then pos 0 else s.position in
    record s { position = if ltb_ℤ posmax low then posmax else low }

-- A round from the key on.
unfoldable pub round : ℤ → State → List ℕ → Option (State × List ℕ)
round posmax s [] = none
round posmax s (key ∷ keys) = elim (apply posmax (command_of (key % 2 ^ 24)) (restore s) keys) [
  | none ↦ none
  | some (s', rest) ↦ some (clamp posmax s', rest)
]

-- What a round draws before it reads its key. `lseek` to a position that is not negative succeeds.
unfoldable pub draw : File → State → List (List ℕ)
draw file s = screen s.format (pos_part s.position) (fill file (pos_part s.position))

-- How a session over given keys ends: by the quit key, or in wait for a key; with the screens drawn.
pub data Outcome : Type 0 where
  quitted : List (List (List ℕ)) → State → List ℕ → Outcome
  waiting : List (List (List ℕ)) → State → Outcome
  out_of_fuel : Outcome

abbrev pub after : List (List ℕ) → Outcome → Outcome
after shown (quitted screens s keys) = quitted (shown ∷ screens) s keys
after shown (waiting screens s) = waiting (shown ∷ screens) s
after shown out_of_fuel = out_of_fuel

-- `while (!done)`, with one unit of fuel for each round.
unfoldable pub play : File → ℕ → State → List ℕ → Outcome
play file zero s keys = out_of_fuel
play file (suc fuel) s keys =
    let more = after (draw file s) (elim (round (max_position (length file.contents)) s keys) [
      | none ↦ waiting [] s
      | some (s', rest) ↦ play file fuel s' rest
    ]) in
    if s.done then quitted [] s keys else more
