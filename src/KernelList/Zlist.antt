-- ===== src/KernelList/Zlist.antt =====
-- src/kernel/data_struct/list/zlist.c
pub mod Walks
use linux_summary.Base.{
  ℕ, ◌+◌, ◌^◌, ◌≤◌, ◌≡◌, ◌⊎◌, arith, Option, none, some, List, [], ◌∷◌, ◌++◌, ◌==◌, if◌then◌else◌,
}
use linux_summary.Base.Int.{ℤ, pos}
use linux_summary.KernelList.{two_added, Disjoint, Lists, list_entry, member}

-- `struct foo_struct` without its `list`, which stands at an offset of 8.
pub record Foo : Type 0 where
  pub id : ℕ
  pub c : ℕ

abbrev pub list_offset : ℕ
list_offset = 8

-- Where `myfoo`, `foo1` and `foo2` are.
pub record Places : Type 0 where
  pub myfoo : ℕ
  pub foo1 : ℕ
  pub foo2 : ℕ

-- What is printed: the heads and structures at the start, a head, or a structure.
pub data Line : Type 0 where
  placed : (foo list : ℕ) → Line
  tmp_list : ℕ → Line
  tmp_foo : ℕ → Foo → Line

-- The structure at an address; none where there is none.
abbrev pub foo_at : Places → ℕ → Option Foo
foo_at p a =
    if a == p.myfoo
    then some (record { id = 0; c = b'a' })
    else (if a == p.foo1
        then some (record { id = 1; c = b'b' })
        else (if a == p.foo2 then some (record { id = 2; c = b'c' }) else none))

abbrev pub prepend : List Line → Option (List Line) → Option (List Line)
prepend lines none = none
prepend lines (some more) = some (lines ++ more)

-- `pr_info` of `tmp_foo`, and then the rest.
abbrev pub show_foo : (ℕ → Option Foo) → ℕ → List Line → Option (List Line) → Option (List Line)
show_foo at a before more = elim (at a) [
  | none ↦ none
  | some foo ↦ prepend (before ++ tmp_foo a foo ∷ []) more
]

-- The loop by `list_for_each` and `list_entry`.
unfoldable pub by_list : (ℕ → Option Foo) → List ℕ → Option (List Line)
by_list at [] = some []
by_list at (l ∷ ls) =
    let a = list_entry list_offset l in show_foo at a (tmp_list l ∷ []) (by_list at ls)

-- The loop by `list_for_each_entry`.
unfoldable pub by_entry : (ℕ → Option Foo) → List ℕ → Option (List Line)
by_entry at [] = some []
by_entry at (l ∷ ls) = let a = list_entry list_offset l in show_foo at a [] (by_entry at ls)

abbrev pub both : Option (List Line) → Option (List Line) → Option (List Line)
both none more = none
both (some lines) more = prepend lines more

-- The size of a `struct foo_struct`.
abbrev pub foo_size : ℕ
foo_size = 24

abbrev pub Inside : ℕ → Type 0
Inside a = a + foo_size ≤ 2 ^ 64

-- Two structures, neither of which lies over a part of the other.
abbrev pub Beside : ℕ → ℕ → Type 0
Beside a b = (a + foo_size ≤ b) ⊎ (b + foo_size ≤ a)

-- The three structures are in memory, each beside the others.
pub record Apart (p : Places) : Type 0 where
  pub foo1_not : Beside p.foo1 p.myfoo
  pub foo2_not : Beside p.foo2 p.myfoo
  pub foos : Beside p.foo2 p.foo1
  pub myfoo_inside : Inside p.myfoo
  pub foo1_inside : Inside p.foo1
  pub foo2_inside : Inside p.foo2

pub members-Disjoint :
    (a b : ℕ)
    → Inside a
    → Inside b
    → Beside a b
    → Disjoint (member list_offset a) (member list_offset b)
members-Disjoint a b h k beside = omega arith

module _ (L : Lists) where
  open L use {Memory, init, add_tail, for_each}

  -- The list that the module keeps.
  unfoldable pub linked : Places → Memory → Memory
  linked p m =
      let head = member list_offset p.myfoo in
      add_tail (member list_offset p.foo2) head
        (add_tail (member list_offset p.foo1) head (init head m))

  -- The result, what is printed (none where a loop meets what is no structure), and the memory
  -- behind it.
  unfoldable pub ztest_init : Places → Memory → ℤ × Option (List Line) × Memory
  unfolding linked by_list by_entry
  ztest_init p m =
      let m' = linked p m in
      let shown =
        placed p.myfoo (member list_offset p.myfoo)
        ∷ placed p.foo1 (member list_offset p.foo1)
        ∷ placed p.foo2 (member list_offset p.foo2)
        ∷ [] in
      let walks : Option (List Line) = elim (for_each (member list_offset p.myfoo) m') [
        | none ↦ none
        | some heads ↦ both (by_list (foo_at p) heads) (by_entry (foo_at p) heads)
      ] in
      (pos 0, prepend shown walks, m')

  -- The heads that the module has linked are those of `foo1` and `foo2`.
  pub linked_heads :
      (p : Places) (m : Memory)
      → Apart p
      → for_each (member list_offset p.myfoo) (linked p m)
        ≡ some (member list_offset p.foo1 ∷ member list_offset p.foo2 ∷ [])
  unfolding linked
  linked_heads p m apart =
      two_added L (member list_offset p.foo1) (member list_offset p.foo2)
        (member list_offset p.myfoo) m
        (members-Disjoint p.foo1 p.myfoo apart.foo1_inside apart.myfoo_inside apart.foo1_not)
        (members-Disjoint p.foo2 p.myfoo apart.foo2_inside apart.myfoo_inside apart.foo2_not)
        (members-Disjoint p.foo2 p.foo1 apart.foo2_inside apart.foo1_inside apart.foos)

abbrev pub lines_of : Places → List Line
lines_of p =
    let b : Foo = record { id = 1; c = b'b' } in
    let c : Foo = record { id = 2; c = b'c' } in
    placed p.myfoo (member list_offset p.myfoo)
    ∷ placed p.foo1 (member list_offset p.foo1)
    ∷ placed p.foo2 (member list_offset p.foo2)
    ∷ tmp_list (member list_offset p.foo1)
    ∷ tmp_foo p.foo1 b
    ∷ tmp_list (member list_offset p.foo2)
    ∷ tmp_foo p.foo2 c
    ∷ tmp_foo p.foo1 b
    ∷ tmp_foo p.foo2 c
    ∷ []
