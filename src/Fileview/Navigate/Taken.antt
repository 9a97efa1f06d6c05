-- ===== src/Fileview/Navigate/Taken.antt =====
-- The keys that the main loop of fileview.c takes, one in each round, with those of the editor.
use mathlib.Core.Path.{subst}
use linux_summary.Base.{
  ℕ, ◌%◌, ◌^◌, ◌≡◌, ◌≢◌, refl, sym, ◌∙◌, ◌⊎◌, inl, inr, Bool, true, false, none, some, List, [],
  ◌∷◌, arith, Option-cases,
}
use linux_summary.Base.Int.{ℤ}
use linux_summary.Fileview.Keys.{Command, format, seek, quit, other, command_of}
use linux_summary.Fileview.Seek.{seek_loop, blank}
use linux_summary.Fileview.Navigate.{State, restore, apply, clamp, round}

abbrev pub meaning : ℕ → Command
meaning key = command_of (key % 2 ^ 24)

-- The keys that are left of `keys` when a round begins, where no round so far took the quit key: a
-- round takes its key, and for the seek key those that the editor takes too.
pub data Taken : List ℕ → List ℕ → Type 0 where
  nothing_yet : {keys : List ℕ} → Taken keys keys
  plain :
      {keys more : List ℕ} {key : ℕ}
      → Taken keys (key ∷ more)
      → meaning key ≢ quit
      → meaning key ≢ seek
      → Taken keys more
  edited :
      {keys more rest b : List ℕ} {key : ℕ}
      → Taken keys (key ∷ more)
      → meaning key ≡ seek
      → seek_loop more blank 0 ≡ some (b, rest)
      → Taken keys rest

-- The last round took the quit key, and the rounds before it did not.
abbrev pub QuitBefore : List ℕ → List ℕ → Type 0
QuitBefore keys rest = (key : ℕ) × Taken keys (key ∷ rest) × (meaning key ≡ quit)

-- No round took the quit key, and no key is left for the loop, or not enough of them for the editor.
abbrev pub RunsOut : List ℕ → Type 0
RunsOut keys =
    Taken keys []
    ⊎ ((key : ℕ) × (more : List ℕ) × Taken keys (key ∷ more)
        × (meaning key ≡ seek)
        × (seek_loop more blank 0 ≡ none))

-- Where the loop stands at the head of a round.
abbrev pub Stands : Bool → List ℕ → List ℕ → Type 0
Stands true keys rest = QuitBefore keys rest
Stands false keys rest = Taken keys rest

stays :
    (c : Command) {done done' : Bool} {keys more rest : List ℕ} {key : ℕ}
    → done ≡ false
    → Taken keys (key ∷ more)
    → meaning key ≡ c
    → c ≢ quit
    → c ≢ seek
    → done' ≡ done
    → more ≡ rest
    → Stands done' keys rest
stays c {keys = keys} undone t m q k same left =
    let here = plain t (λ e. q (sym m ∙ e)) (λ e. k (sym m ∙ e)) in
    rw (same, undone) (subst (Taken keys) left here)

stops :
    {done : Bool} {keys more rest : List ℕ} {key : ℕ}
    → Taken keys (key ∷ more)
    → meaning key ≡ quit
    → done ≡ true
    → more ≡ rest
    → Stands done keys rest
stops {keys = keys} {key = key} t m is_done left =
    rw is_done (key, subst (λ r. Taken keys (key ∷ r)) left t, m)

edits :
    {done done' : Bool} {keys more rest rest' b : List ℕ} {key : ℕ}
    → done ≡ false
    → Taken keys (key ∷ more)
    → meaning key ≡ seek
    → seek_loop more blank 0 ≡ some (b, rest')
    → done' ≡ done
    → rest' ≡ rest
    → Stands done' keys rest
edits {keys = keys} undone t m got same left =
    rw (same, undone) (subst (Taken keys) left (edited t m got))

apply_stands :
    (posmax : ℤ) (c : Command) (s : State) {keys more rest : List ℕ} {key : ℕ} {s' : State}
    → s.done ≡ false
    → Taken keys (key ∷ more)
    → meaning key ≡ c
    → apply posmax c s more ≡ some (s', rest)
    → Stands s'.done keys rest
unfolding apply
apply_stands posmax quit s d t m e = stops t m (ground arith) (ground arith)
apply_stands posmax seek s {more = more} d t m e = elim (Option-cases (seek_loop more blank 0)) [
  | inl waits ↦ absurd (ground arith)
  | inr (typed, got) ↦ edits d t m got (ground arith) (ground arith)
]
apply_stands posmax other s d t m e =
    stays other d t m (λ x. cc) (λ x. cc) (ground arith) (ground arith)
apply_stands posmax (format f) s d t m e =
    stays (format f) d t m (λ x. cc) (λ x. cc) (ground arith) (ground arith)
apply_stands posmax _ s d t m e = stays _ d t m (λ x. cc) (λ x. cc) (ground arith) (ground arith)

-- A round of a loop that is not done yet takes its keys, and ends the loop at the quit key only.
pub round_stands :
    (posmax : ℤ) (s : State) {keys now rest : List ℕ} {s' : State}
    → s.done ≡ false
    → Taken keys now
    → round posmax s now ≡ some (s', rest)
    → Stands s'.done keys rest
unfolding round restore clamp
round_stands posmax s {now = []} d t e = absurd cc
round_stands posmax s {keys = keys} {now = key ∷ more} {rest = rest} {s' = s'} d t e =
    elim (Option-cases (apply posmax (meaning key) (restore s) more)) [
      | inl waits ↦ absurd (ground arith)
      | inr ((s1, rest1), got) ↦
          let last = apply_stands posmax (meaning key) (restore s) d t refl got in
          let same : ◌≡◌ {A = Bool} s1.done s'.done = ground arith in
          let left : ◌≡◌ {A = List ℕ} rest1 rest = ground arith in
          subst (λ b. Stands b keys rest) same (subst (λ r. Stands s1.done keys r) left last)
    ]

apply-RunsOut :
    (posmax : ℤ) (c : Command) (s : State) {keys more : List ℕ} {key : ℕ}
    → Taken keys (key ∷ more)
    → meaning key ≡ c
    → apply posmax c s more ≡ none
    → RunsOut keys
unfolding apply
apply-RunsOut posmax seek s {more = more} {key = key} t m e =
    elim (Option-cases (seek_loop more blank 0)) [
      | inl waits ↦ inr (key, more, t, m, waits)
      | inr (typed, got) ↦ absurd (ground arith)
    ]
apply-RunsOut posmax other s t m e = absurd cc
apply-RunsOut posmax _ s t m e = absurd cc

-- Where a round does not get through, the keys have run out.
pub round-RunsOut :
    (posmax : ℤ) (s : State) {keys now : List ℕ}
    → Taken keys now
    → round posmax s now ≡ none
    → RunsOut keys
unfolding round
round-RunsOut posmax s {now = []} t e = inl t
round-RunsOut posmax s {keys = keys} {now = key ∷ more} t e =
    elim (Option-cases (apply posmax (meaning key) (restore s) more)) [
      | inl waits ↦ apply-RunsOut posmax (meaning key) (restore s) t refl waits
      | inr (found, got) ↦ absurd (ground arith)
    ]
