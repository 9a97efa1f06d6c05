-- ===== src/Fileview/Navigate/Bounds.antt =====
-- The invariant of the loop of fileview.c, and that every round keeps it.
use linux_summary.Base.{ℕ, ◌%◌, ◌^◌, ◌≡◌, ◌⊎◌, inl, inr, some, List, ◌∷◌, [], arith, Option-cases}
use linux_summary.Base.Int.{
  ℤ, pos, negsuc, pos_part, neg_part, ◌+ℤ◌, ◌-ℤ◌, ◌≤ℤ◌, clear_low4, signed64,
}
use linux_summary.Fileview.Keys.{
  Command, home, end, line_down, line_up, page_down, page_up, narrower, wider, format, seek, quit,
  other, command_of,
}
use linux_summary.Fileview.Line.Width.{IsFormat}
use linux_summary.Fileview.Seek.{seek_loop, blank, address}
use linux_summary.Fileview.Navigate.{State, max_position, restore, apply, clamp, round}

-- A multiple of a paragraph.
abbrev pub IsAligned : ℤ → Type 0
IsAligned a = (pos_part a % 16 ≡ 0) × (neg_part a % 16 ≡ 0)

-- The page increments at the head of a round, once restored.
abbrev pub IsRestored : ℕ → Type 0
IsRestored n =
    (n ≡ 2 ^ 8)
    ⊎ ((n ≡ 2 ^ 12)
        ⊎ ((n ≡ 2 ^ 16)
            ⊎ ((n ≡ 2 ^ 20) ⊎ ((n ≡ 2 ^ 24) ⊎ ((n ≡ 2 ^ 28) ⊎ ((n ≡ 2 ^ 32) ⊎ (n ≡ 2 ^ 36)))))))

-- Those that a round may leave: one more on each side.
abbrev pub IsIncr : ℕ → Type 0
IsIncr n = (n ≡ 2 ^ 4) ⊎ ((n ≡ 2 ^ 40) ⊎ IsRestored n)

pub record IsValid (posmax : ℤ) (s : State) : Type 0 where
  pub low : pos 0 ≤ℤ s.position
  pub high : s.position ≤ℤ posmax
  pub aligned : IsAligned s.position
  pub in_format : IsFormat s.format
  pub incr : IsIncr s.page_incr

-- What holds between the switch and the clamp.
record IsRaw (s : State) : Type 0 where
  aligned : IsAligned s.position
  in_format : IsFormat s.format
  incr : IsIncr s.page_incr

-- What the program relies on of `posmax`.
pub record IsLimit (posmax : ℤ) : Type 0 where
  pub low : pos 0 ≤ℤ posmax
  pub aligned : IsAligned posmax

abbrev CommandFormat : Command → Type 0
CommandFormat (format f) = IsFormat f
CommandFormat _ = Unit

restore-IsRestored : (s : State) → IsIncr s.page_incr → IsRestored (restore s).page_incr
unfolding restore
restore-IsRestored s h = ground arith

clear_low4-IsAligned : (a : ℤ) → IsAligned (clear_low4 a)
clear_low4-IsAligned (pos n) = omega arith
clear_low4-IsAligned (negsuc n) = omega arith

pub max_position-IsLimit : (size : ℕ) → IsLimit (max_position size)
unfolding max_position
max_position-IsLimit size = ground arith

add-IsAligned : (a : ℤ) (n : ℕ) → IsAligned a → n % 16 ≡ 0 → IsAligned (a +ℤ pos n)
unfolding ◌+ℤ◌
add-IsAligned a n h k = ground arith

sub-IsAligned : (a : ℤ) (n : ℕ) → IsAligned a → n % 16 ≡ 0 → IsAligned (a -ℤ pos n)
unfolding ◌-ℤ◌
sub-IsAligned a n h k = ground arith

command_of-CommandFormat : (c : ℕ) → CommandFormat (command_of c)
unfolding command_of
command_of-CommandFormat c = ground arith

address-IsAligned : (b : List ℕ) → IsAligned (address b)
unfolding address
address-IsAligned b = clear_low4-IsAligned (signed64 _)

apply-IsRaw :
    (posmax : ℤ) (c : Command) (s : State) (keys : List ℕ) {s' : State} {rest : List ℕ}
    → IsLimit posmax
    → CommandFormat c
    → IsAligned s.position
    → IsFormat s.format
    → IsRestored s.page_incr
    → apply posmax c s keys ≡ some (s', rest)
    → IsRaw s'
unfolding apply
apply-IsRaw posmax home s keys l c a f i e = ground arith
apply-IsRaw posmax end s keys l c a f i e = ground arith
apply-IsRaw posmax line_down s keys l c a f i e = ground (arith, add-IsAligned s.position 16 a)
apply-IsRaw posmax line_up s keys l c a f i e = ground (arith, sub-IsAligned s.position 16 a)
apply-IsRaw posmax page_down s keys l c a f i e =
    ground (arith, add-IsAligned s.position s.page_incr a)
apply-IsRaw posmax page_up s keys l c a f i e =
    ground (arith, sub-IsAligned s.position s.page_incr a)
apply-IsRaw posmax narrower s keys l c a f i e = ground arith
apply-IsRaw posmax wider s keys l c a f i e = ground arith
apply-IsRaw posmax (format k) s keys l c a f i e = ground arith
apply-IsRaw posmax seek s keys l c a f i e = elim (Option-cases (seek_loop keys blank 0)) [
  | inl waits ↦ ground arith
  | inr (typed, got) ↦ ground (arith, address-IsAligned typed.0)
]
apply-IsRaw posmax quit s keys l c a f i e = ground arith
apply-IsRaw posmax other s keys l c a f i e = ground arith

clamp-IsValid :
    (posmax : ℤ) (s : State) → IsLimit posmax → IsRaw s → IsValid posmax (clamp posmax s)
unfolding clamp
clamp-IsValid posmax s l r = ground arith

restore_keeps :
    (s : State)
    → IsAligned s.position × IsFormat s.format
    → IsAligned (restore s).position × IsFormat (restore s).format
unfolding restore
restore_keeps s h = h

-- With a valid limit, a round that is given its keys keeps the position within `0 .. posmax` and
-- on a paragraph, the format one of the five, and the page increment a power of sixteen that the
-- next round restores to 2 ^ 8 .. 2 ^ 36.
pub round-IsValid :
    (posmax : ℤ) (s : State) (keys : List ℕ) {s' : State} {rest : List ℕ}
    → IsLimit posmax
    → IsValid posmax s
    → round posmax s keys ≡ some (s', rest)
    → IsValid posmax s'
unfolding round
round-IsValid posmax s [] l v e = cc
round-IsValid posmax s (key ∷ keys) l v e =
    elim (Option-cases (apply posmax (command_of (key % 2 ^ 24)) (restore s) keys)) [
      | inl waits ↦ ground arith
      | inr (next, got) ↦
          let (aligned, in_format) = restore_keeps s (v.aligned, v.in_format) in
          let raw =
            apply-IsRaw posmax (command_of (key % 2 ^ 24)) (restore s) keys l
              (command_of-CommandFormat (key % 2 ^ 24)) aligned in_format
              (restore-IsRestored s v.incr) got in
          ground (arith, clamp-IsValid posmax next.0 l raw)
    ]
