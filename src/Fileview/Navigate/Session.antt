-- ===== src/Fileview/Navigate/Session.antt =====
-- Whole sessions of fileview.c: they end, and what they draw.
use mathlib.Core.Path.{subst}
use linux_summary.Base.{
  ℕ, zero, suc, ◌+◌, ◌%◌, ◌^◌, ◌≤◌, ◌<◌, ◌≡◌, refl, ◌⊎◌, inl, inr, true, false, Option, some, List,
  [], ◌∷◌, length, arith, All, Option-cases, Bool-cases, ltb,
}
use linux_summary.Base.Int.{ℤ, pos, pos_part, neg_part, ◌≤ℤ◌, ◌-ℤ◌}
use linux_summary.Fileview.Keys.{Command, home, seek, other, command_of}
use linux_summary.Fileview.Fill.{File, IsFile, fill, fill_lem, fill-All}
use linux_summary.Fileview.Line.Width.{IsByte, IsOutline, screen-IsOutline}
use linux_summary.Fileview.Seek.{Verdict, stop, next, seek_key, seek_loop, blank}
use linux_summary.Fileview.Navigate.{
  State, start, max_position, restore, apply, round, draw, Outcome, quitted, waiting, out_of_fuel,
  after, play,
}
use linux_summary.Fileview.Navigate.Taken.{
  nothing_yet, Stands, QuitBefore, RunsOut, round_stands, round-RunsOut,
}
use linux_summary.Fileview.Navigate.Bounds.{IsValid, max_position-IsLimit, round-IsValid}

verdict_shrinks :
    (v : Verdict) (keys : List ℕ) {b rest : List ℕ}
    → ((b' : List ℕ) (j : ℕ) → seek_loop keys b' j ≡ some (b, rest) → length rest ≤ length keys)
    → ◌≡◌ {A = Option (List ℕ × List ℕ)}
        (elim v [ stop b' ↦ some (b', keys) | next b' j ↦ seek_loop keys b' j ])
        (some (b, rest))
    → length rest ≤ length keys
verdict_shrinks (stop b') keys rec e = ground arith
verdict_shrinks (next b' j) keys rec e = rec b' j e

-- The editor leaves no more keys than it was given.
seek_loop_shrinks :
    (keys b : List ℕ) (i : ℕ) {b' rest : List ℕ}
    → seek_loop keys b i ≡ some (b', rest)
    → length rest ≤ length keys
unfolding seek_loop
seek_loop_shrinks [] b i e = ground arith
seek_loop_shrinks (key ∷ keys) b i {b'} {rest} e = elim (Bool-cases (ltb i 15)) [
  | inl room ↦
      let shorter =
        verdict_shrinks (seek_key (key % 2 ^ 24) b i) keys {b = b'} {rest = rest}
          (λ c j. seek_loop_shrinks keys c j) (rw room at e) in
      omega arith
  | inr full ↦ ground arith
]

apply_shrinks :
    (posmax : ℤ) (c : Command) (s : State) (keys : List ℕ) {s' : State} {rest : List ℕ}
    → apply posmax c s keys ≡ some (s', rest)
    → length rest ≤ length keys
unfolding apply
apply_shrinks posmax seek s keys e = elim (Option-cases (seek_loop keys blank 0)) [
  | inl waits ↦ ground arith
  | inr (typed, got) ↦ ground (arith, seek_loop_shrinks keys blank 0 got)
]
apply_shrinks posmax home s keys e = ground arith
apply_shrinks posmax other s keys e = ground arith
apply_shrinks posmax _ s keys e = ground arith

round_shrinks :
    (posmax : ℤ) (s : State) (keys : List ℕ) {s' : State} {rest : List ℕ}
    → round posmax s keys ≡ some (s', rest)
    → length rest < length keys
unfolding round
round_shrinks posmax s [] e = cc
round_shrinks posmax s (key ∷ keys) e =
    let c = command_of (key % 2 ^ 24) in
    elim (Option-cases (apply posmax c (restore s) keys)) [
      | inl waits ↦ ground arith
      | inr (found, got) ↦ ground (arith, apply_shrinks posmax c (restore s) keys got)
    ]

-- Sixteen lines that fit `outline[80]` and show.
abbrev pub IsScreen : List (List ℕ) → Type 0
IsScreen shown = All IsOutline shown × (length shown ≡ 16)

-- A session over `keys` that ends as it should, on a file whose last page begins at `posmax`: at the
-- first quit key that a round takes, or where the keys run out before one.
abbrev pub EndsWell : ℤ → List ℕ → Outcome → Type 0
EndsWell posmax keys (quitted screens s rest) =
    All IsScreen screens × IsValid posmax s × (s.done ≡ true) × QuitBefore keys rest
EndsWell posmax keys (waiting screens s) =
    All IsScreen screens × IsValid posmax s × (s.done ≡ false) × RunsOut keys
EndsWell posmax keys out_of_fuel = ⊥

after-EndsWell :
    (posmax : ℤ) (keys : List ℕ) (shown : List (List ℕ)) (o : Outcome)
    → IsScreen shown
    → EndsWell posmax keys o
    → EndsWell posmax keys (after shown o)
after-EndsWell posmax keys shown (quitted screens s left) h (a, b, c, d) = ((h, a), b, c, d)
after-EndsWell posmax keys shown (waiting screens s) h (a, b, c, d) = ((h, a), b, c, d)
after-EndsWell posmax keys shown out_of_fuel h e = e

one_part : (a : ℤ) → (pos_part a ≡ 0) ⊎ (neg_part a ≡ 0)
one_part a = ground arith

max_position-le : (size : ℕ) → max_position size ≤ℤ pos size
unfolding max_position ◌-ℤ◌
max_position-le size = ground arith

module _ (file : File) (is : IsFile file) (bytes : All IsByte file.contents)
    (small : length file.contents + 256 ≤ 16 ^ 13) where
  abbrev limit : ℤ
  limit = max_position (length file.contents)

  draw-IsScreen : (s : State) → IsValid limit s → IsScreen (draw file s)
  unfolding draw
  draw-IsScreen s v =
      let p = pos_part s.position in
      screen-IsOutline s.format p (fill file p) v.in_format
        (omega (arith, one_part s.position, max_position-le (length file.contents)))
        (fill-All is IsByte p (omega arith) bytes) ((fill_lem is p).1)

  play-EndsWell :
      (fuel : ℕ) (s : State) (all keys : List ℕ)
      → IsValid limit s
      → Stands s.done all keys
      → length keys < fuel
      → EndsWell limit all (play file fuel s keys)
  unfolding play
  play-EndsWell zero s all keys v t h = absurd (omega arith)
  play-EndsWell (suc fuel) s all keys v t h = elim (Bool-cases s.done) [
    | inl done ↦ let quits = subst (λ d. Stands d all keys) done t in simp done (tt, v, refl, quits)
    | inr more ↦
        let taken = subst (λ d. Stands d all keys) more t in
        simp more (
          after-EndsWell limit all (draw file s) _ (draw-IsScreen s v)
            (elim (Option-cases (round limit s keys)) [
              | inl waits ↦ rw waits (tt, v, more, round-RunsOut limit s taken waits)
              | inr ((s', rest), got) ↦ rw got (
                  play-EndsWell fuel s' all rest
                    (round-IsValid limit s keys (max_position-IsLimit (length file.contents)) v got)
                    (round_stands limit s more taken got)
                    (omega (arith, round_shrinks limit s keys got)))
            ]))
  ]

start-IsValid : (size : ℕ) → IsValid (max_position size) start
unfolding max_position ◌-ℤ◌
start-IsValid size = ground arith

-- On every file of bytes that ends before 16 ^ 13 - 256, read in whatever portions, and for every
-- sequence of keys, the session neither hangs nor runs past its keys. If it ends, then at a key that
-- means quit, the first such key that a round takes, and it leaves the keys behind it; keys that the
-- editor takes do not count. If it waits, no round took such a key, and no key is left for the next
-- round, or too few for the editor that its seek key has called. Every screen on the way has sixteen
-- printable lines of 78 characters, and at the end the position is a paragraph from 0 to `posmax`.
pub play_lem :
    (file : File)
    → IsFile file
    → All IsByte file.contents
    → length file.contents + 256 ≤ 16 ^ 13
    → (keys : List ℕ)
    → EndsWell (max_position (length file.contents)) keys (play file (suc (length keys)) start keys)
play_lem file is bytes small keys =
    play-EndsWell file is bytes small (suc (length keys)) start keys keys
      (start-IsValid (length file.contents)) nothing_yet (omega arith)
