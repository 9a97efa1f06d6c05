-- ===== src/KernelList/Zmodule.antt =====
-- src/kernel/default_variable/this_module/zmodule.c, which walks the ring of the modules that are
-- loaded.
use linux_summary.Base.{
  ℕ, ◌+◌, ◌≡◌, refl, ap, sym, ◌∙◌, Option, none, some, List, [], ◌∷◌, ◌++◌, length, append_assoc,
  arith,
}
use linux_summary.Base.Int.{ℤ, pos}
use linux_summary.KernelList.{Ring}

-- A module: its name, and the heads of `target_list`, one for each module that it uses.
pub record Module : Type 0 where
  pub name : ℕ
  pub target_list : List ℕ

-- What the kernel has: the module of a head, and the name of what a use of a module is of. A head
-- that stands in no module, as that of the whole list, has none.
pub record Kernel : Type 0 where
  pub modules : ℕ → Option Module
  pub use_target : ℕ → Option ℕ

-- A line: a module, with those that it uses.
pub record Line : Type 0 where
  pub name : ℕ
  pub depends : List ℕ

-- The inner loop; none where a head is in no `struct module_use`.
unfoldable pub depends : (ℕ → Option ℕ) → List ℕ → Option (List ℕ)
depends use_target [] = some []
depends use_target (u ∷ uses) =
    let rest = depends use_target uses in
    elim (use_target u) [
      | none ↦ none
      | some name ↦ elim rest [ none ↦ none | some names ↦ some (name ∷ names) ]
    ]

-- The outer loop from `i` on: the lines and the last `i`; none where it takes a head that is in
-- no module for one that is.
unfoldable pub show_modules : Kernel → (i : ℕ) → List ℕ → Option (List Line × ℕ)
unfolding depends
show_modules k i [] = some ([], i)
show_modules k i (h ∷ heads) =
    let rest = show_modules k (i + 1) heads in
    elim (k.modules h) [
      | none ↦ none
      | some m ↦ elim (depends k.use_target m.target_list) [
        | none ↦ none
        | some names ↦ elim rest [
          | none ↦ none
          | some (lines, n) ↦ some (record { name = m.name; depends = names } ∷ lines, n)
        ]
      ]
    ]

abbrev pub with_result : Option (List Line × ℕ) → Option (ℤ × List Line × ℕ)
with_result none = none
with_result (some (lines, n)) = some (pos 0, lines, n)

unfoldable pub walk : Kernel → Option (List ℕ) → Option (ℤ × List Line × ℕ)
unfolding show_modules
walk k none = none
walk k (some heads) = with_result (show_modules k 1 heads)

-- The result, the lines and the number that is printed; none where the walk fails. `this` is the
-- head in `THIS_MODULE`.
unfoldable pub ztest_init : Ring → Kernel → (this : ℕ) → Option (ℤ × List Line × ℕ)
unfolding walk
ztest_init r k this = walk k (r.for_each (r.prev this))

-- What a list of modules is to look like.
pub record Loaded : Type 0 where
  pub head : ℕ
  pub line : Line

-- Each head stands in a module with this name, and with these uses.
abbrev pub Holds : Kernel → Loaded → Type 0
Holds k l =
    (m : Module) × (k.modules l.head ≡ some m)
    × (m.name ≡ l.line.name)
    × (depends k.use_target m.target_list ≡ some l.line.depends)

abbrev pub AllHold : Kernel → List Loaded → Type 0
AllHold k [] = Unit
AllHold k (l ∷ ls) = Holds k l × AllHold k ls

abbrev pub heads_of : List Loaded → List ℕ
heads_of [] = []
heads_of (l ∷ ls) = l.head ∷ heads_of ls

abbrev pub lines_of : List Loaded → List Line
lines_of [] = []
lines_of (l ∷ ls) = l.line ∷ lines_of ls

show_modules-all :
    (k : Kernel) (i : ℕ) (ls : List Loaded)
    → AllHold k ls
    → show_modules k i (heads_of ls) ≡ some (lines_of ls, i + length ls)
unfolding show_modules
show_modules-all k i [] h = ap (λ n. some ([], n)) (omega arith)
show_modules-all k i (l ∷ ls) ((m, there, named, uses), h) =
    rw (there, uses, show_modules-all k (i + 1) ls h, named)
      (ap (λ n. some (lines_of (l ∷ ls), n)) (omega arith))

show_modules-head :
    (k : Kernel) (i : ℕ) (ls : List Loaded) (h : ℕ) (more : List ℕ)
    → AllHold k ls
    → k.modules h ≡ none
    → show_modules k i (heads_of ls ++ h ∷ more) ≡ none
unfolding show_modules
show_modules-head k i [] h more a gone = rw gone refl
show_modules-head k i (l ∷ ls) h more ((m, there, named, uses), a) gone =
    rw (there, uses, show_modules-head k (i + 1) ls h more a gone) refl

module _ (r : Ring) (k : Kernel) (h : ℕ) (t : Loaded) (older : List Loaded)
    (held : AllHold k (t ∷ older)) where
  newest :
      r.for_each h ≡ some (heads_of (t ∷ older))
      → ztest_init r k t.head ≡ some (pos 0, lines_of (t ∷ older), 1 + length (t ∷ older))
  unfolding ztest_init
  newest ring =
      let p = r.prev_last t.head h (heads_of older) (r.turned h t.head [] (heads_of older) ring) in
      ap (walk k) (ap r.for_each p ∙ ring) ∙ ap with_result (show_modules-all k 1 (t ∷ older) held)

  overtaken :
      (newer : List ℕ) (p : ℕ)
      → k.modules h ≡ none
      → r.for_each h ≡ some (newer ++ p ∷ heads_of (t ∷ older))
      → ztest_init r k t.head ≡ none
  unfolding ztest_init
  overtaken newer p gone ring =
      let front : newer ++ p ∷ heads_of (t ∷ older) ≡ (newer ++ p ∷ []) ++ heads_of (t ∷ older) =
        sym (append_assoc newer (p ∷ []) (heads_of (t ∷ older))) in
      let behind =
        r.turned h t.head (newer ++ p ∷ []) (heads_of older) (ring ∙ ap (λ xs. some xs) front) in
      let back : heads_of older ++ h ∷ (newer ++ p ∷ []) ≡ (heads_of older ++ h ∷ newer) ++ p ∷ [] =
        sym (append_assoc (heads_of older) (h ∷ newer) (p ∷ [])) in
      let q =
        r.prev_last t.head p (heads_of older ++ h ∷ newer) (behind ∙ ap (λ xs. some xs) back) in
      ap (walk k) (ap r.for_each q ∙ r.turned h p newer (heads_of (t ∷ older)) ring)
      ∙ ap with_result (show_modules-head k 1 (t ∷ older) h newer held gone)

-- A list with an element, by its last one.
by_last : (x : ℕ) (xs : List ℕ) → (front : List ℕ) × (p : ℕ) × (x ∷ xs ≡ front ++ p ∷ [])
by_last x [] = ([], x, refl)
by_last x (y ∷ xs) = let (front, p, e) = by_last y xs in (x ∷ front, p, ap (λ t. x ∷ t) e)

-- What the module does behind the heads of those that were loaded since.
abbrev pub outcome : (newer : List ℕ) → List Loaded → Option (ℤ × List Line × ℕ)
outcome [] loaded = some (pos 0, lines_of loaded, 1 + length loaded)
outcome (p ∷ newer) loaded = none

-- For a ring of loaded modules behind the kernel's head: where this module is the newest, each
-- module is shown, the newest first, with the modules that it uses, and the number that is
-- printed is one more than there are. Where others have been loaded since, the walk begins behind
-- the last of those and takes the kernel's head for a module.
pub ztest_init-modules :
    (r : Ring) (k : Kernel) (h : ℕ) (newer : List ℕ) (t : Loaded) (older : List Loaded)
    → AllHold k (t ∷ older)
    → k.modules h ≡ none
    → r.for_each h ≡ some (newer ++ heads_of (t ∷ older))
    → ztest_init r k t.head ≡ outcome newer (t ∷ older)
ztest_init-modules r k h [] t older held gone ring = newest r k h t older held ring
ztest_init-modules r k h (x ∷ newer) t older held gone ring =
    let (front, p, e) = by_last x newer in
    let heads = heads_of (t ∷ older) in
    overtaken r k h t older held front p gone (
      ring
      ∙ ap (λ xs. some (xs ++ heads)) e
      ∙ ap (λ xs. some xs) (append_assoc front (p ∷ []) heads))
