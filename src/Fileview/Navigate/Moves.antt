-- ===== src/Fileview/Navigate/Moves.antt =====
-- What the keys of fileview.c do to the position.
use linux_summary.Base.{
  ℕ, ◌+◌, ◌*◌, ◌/◌, ◌%◌, ◌^◌, ◌≤◌, ◌<◌, ◌≡◌, refl, ap, ◌∙◌, min, some, List, ◌∷◌, ◌++◌, arith,
}
use linux_summary.Base.Int.{ℤ, pos, pos_part, ◌+ℤ◌, ◌-ℤ◌, ◌≤ℤ◌, int_laws, +ℤ_parts}
use linux_summary.Fileview.Keys.{kb_seek, kb_page_down, kb_page_up, command_of}
use linux_summary.Fileview.Seek.{seek_loop, blank, address}
use linux_summary.Fileview.Seek.Address.{hex, seek_loop-hex}
use linux_summary.Fileview.Navigate.{State, max_position, restore, apply, clamp, round}
use linux_summary.Fileview.Navigate.Bounds.{IsValid}

-- From `posmax` a page shows the end of the file: in its last line, or, in a file of less than 256
-- bytes, on its only page. At `posmax` of a longer file the last line is not empty.
pub max_position_shows_end :
    (size : ℕ)
    → (n : ℕ) × (max_position size ≡ pos n)
      × (n % 16 ≡ 0)
      × (size ≤ n + 256)
      × (256 < size → n + 240 < size)
unfolding max_position ◌-ℤ◌
max_position_shows_end size =
    (pos_part (max_position size), ground arith, ground arith, ground arith, ground arith)

round-apply :
    (posmax : ℤ) (key : ℕ) (s t : State) (keys rest : List ℕ)
    → apply posmax (command_of (key % 2 ^ 24)) (restore s) keys ≡ some (t, rest)
    → round posmax s (key ∷ keys) ≡ some (clamp posmax t, rest)
unfolding round
round-apply posmax key s t keys rest e = ground arith

apply-seek :
    (posmax a : ℤ) (s : State) (keys b rest : List ℕ)
    → seek_loop keys blank 0 ≡ some (b, rest)
    → address b ≡ a
    → apply posmax (command_of (kb_seek % 2 ^ 24)) s keys ≡ some (record s { position = a }, rest)
unfolding apply command_of
apply-seek posmax a s keys b rest e k = ground arith

clamp_pos :
    (limit n : ℕ) (s : State)
    → clamp (pos limit) (record s { position = pos n }) ≡ record s { position = pos (min n limit) }
unfolding clamp
clamp_pos limit n s = ground arith

-- Enter, the hexadecimal digits of an address below 16 ^ 14, and Enter: the position becomes the
-- address, rounded down to a paragraph and held at `posmax`. The other keys are left, and nothing
-- else changes but the restored page increment.
pub round-seek :
    (limit n : ℕ) (s : State) (rest : List ℕ)
    → n < 16 ^ 14
    → round (pos limit) s (kb_seek ∷ hex n ++ b'\n' ∷ rest)
      ≡ some (record (restore s) { position = pos (min (n / 16 * 16) limit) }, rest)
round-seek limit n s rest h =
    let (b, typed, stands) = seek_loop-hex n rest h in
    let a = pos (n / 16 * 16) in
    let keys = hex n ++ b'\n' ∷ rest in
    round-apply (pos limit) kb_seek s (record (restore s) { position = a }) keys rest
      (apply-seek (pos limit) a (restore s) keys b rest typed stands)
    ∙ ap (λ t. some (t, rest)) (clamp_pos limit (n / 16 * 16) (restore s))

clamp_inside :
    (posmax : ℤ) (s : State) → pos 0 ≤ℤ s.position → s.position ≤ℤ posmax → clamp posmax s ≡ s
unfolding clamp
clamp_inside posmax s low high = ground arith

restore_again :
    (s : State) (p : ℤ)
    → restore (record (restore s) { position = p }) ≡ record (restore s) { position = p }
unfolding restore
restore_again s p = ground arith

add_sub : (a : ℤ) (n : ℕ) → a +ℤ pos n -ℤ pos n ≡ a
add_sub a n = omega int_laws

round-page_down :
    (posmax : ℤ) (s : State) (keys : List ℕ)
    → round posmax s (kb_page_down ∷ keys)
      ≡ some (
        clamp posmax
            (record (restore s) { position = (restore s).position +ℤ pos (restore s).page_incr }),
        keys,
      )
unfolding round apply command_of
round-page_down posmax s keys = refl

round-page_up :
    (posmax : ℤ) (s : State) (keys : List ℕ)
    → round posmax s (kb_page_up ∷ keys)
      ≡ some (
        clamp posmax
            (record (restore s) { position = (restore s).position -ℤ pos (restore s).page_incr }),
        keys,
      )
unfolding round apply command_of
round-page_up posmax s keys = refl

restore-position : (s : State) → (restore s).position ≡ s.position
unfolding restore
restore-position s = refl

-- Page down and then page up lead back to the position, where the page down stays in range.
pub round_down_up :
    (posmax : ℤ) (s : State) (keys : List ℕ)
    → IsValid posmax s
    → s.position +ℤ pos (restore s).page_incr ≤ℤ posmax
    → (t u : State) × (round posmax s (kb_page_down ∷ keys) ≡ some (t, keys))
      × (t.position ≡ s.position +ℤ pos (restore s).page_incr)
      × (round posmax t (kb_page_up ∷ keys) ≡ some (u, keys))
      × (u.position ≡ s.position)
round_down_up posmax s keys v h =
    let q = (restore s).page_incr in
    let t : State = record (restore s) { position = s.position +ℤ pos q } in
    let u : State = record (restore s) { position = s.position } in
    let low : pos 0 ≤ℤ s.position +ℤ pos q = omega (arith, v.low, +ℤ_parts s.position (pos q)) in
    (
      t,
      u,
      round-page_down posmax s keys
          ∙ rw (restore-position s) (ap (λ r. some (r, keys)) (clamp_inside posmax t low h)),
      refl,
      round-page_up posmax t keys
          ∙ rw (restore_again s (s.position +ℤ pos q), add_sub s.position q)
              (ap (λ r. some (r, keys)) (clamp_inside posmax u v.low v.high)),
      refl,
    )
