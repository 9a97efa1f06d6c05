-- ===== src/KernelList/Zlist2.antt =====
-- src/kernel/data_struct/list/zlist2.c, whose loop is that of zlist.c over another structure of
-- the same layout.
use linux_summary.Base.{
  ℕ, ◌≡◌, refl, ap, ◌∙◌, Option, none, some, List, [], ◌∷◌, ◌==◌, if◌then◌else◌, arith,
}
use linux_summary.Base.Int.{ℤ, pos}
use linux_summary.KernelList.{two_added, Lists, member}
use linux_summary.KernelList.Zlist.Walks.{by_entry-member}
use linux_summary.KernelList.Zlist.{
  Inside, Beside, members-Disjoint, Foo, Line, tmp_foo, list_offset, prepend, by_entry,
}

-- The offset of `datas` in `struct foo_struct`.
abbrev pub datas_offset : ℕ
datas_offset = 8

-- Where `myfoo`, `data1` and `data2` are.
pub record Places : Type 0 where
  pub myfoo : ℕ
  pub data1 : ℕ
  pub data2 : ℕ

abbrev pub first : Foo
first = record { id = 1; c = b'a' }

abbrev pub second : Foo
second = record { id = 2; c = b'b' }

abbrev pub data_at : Places → ℕ → Option Foo
data_at p a = if a == p.data1 then some first else (if a == p.data2 then some second else none)

-- `print_data_struct`
pub record Shown : Type 0 where
  pub address : ℕ
  pub list : ℕ
  pub value : Foo

abbrev pub print_data_struct : ℕ → Foo → Shown
print_data_struct a v = record { address = a; list = member list_offset a; value = v }

-- `myfoo` and the two structures are in memory, each beside the others.
pub record Apart (p : Places) : Type 0 where
  pub data1_not : Beside p.data1 p.myfoo
  pub data2_not : Beside p.data2 p.myfoo
  pub datas : Beside p.data2 p.data1
  pub myfoo_inside : Inside p.myfoo
  pub data1_inside : Inside p.data1
  pub data2_inside : Inside p.data2

module _ (L : Lists) where
  open L use {Memory, init, add_tail, for_each}

  unfoldable pub linked : Places → Memory → Memory
  linked p m =
      let head = member datas_offset p.myfoo in
      add_tail (member list_offset p.data2) head
        (add_tail (member list_offset p.data1) head (init head m))

  -- The result, the two structures, and the lines of the loop.
  unfoldable pub zlist_init : Places → Memory → ℤ × List Shown × Option (List Line)
  unfolding linked
  zlist_init p m = (
    pos 0,
    print_data_struct p.data1 first ∷ print_data_struct p.data2 second ∷ [],
    elim (for_each (member datas_offset p.myfoo) (linked p m)) [
      | none ↦ none
      | some heads ↦ by_entry (data_at p) heads
    ],
  )

  linked_heads :
      (p : Places) (m : Memory)
      → Apart p
      → for_each (member datas_offset p.myfoo) (linked p m)
        ≡ some (member list_offset p.data1 ∷ member list_offset p.data2 ∷ [])
  unfolding linked
  linked_heads p m apart =
      two_added L (member list_offset p.data1) (member list_offset p.data2)
        (member datas_offset p.myfoo) m
        (members-Disjoint p.data1 p.myfoo apart.data1_inside apart.myfoo_inside apart.data1_not)
        (members-Disjoint p.data2 p.myfoo apart.data2_inside apart.myfoo_inside apart.data2_not)
        (members-Disjoint p.data2 p.data1 apart.data2_inside apart.data1_inside apart.datas)

-- Whatever keeps the kernel's lists, and wherever the three structures are in memory, none over a
-- part of another: the loop prints both, in the order in which they were linked.
pub zlist_init-walks :
    (L : Lists) (p : Places) (m : L.Memory)
    → Apart p
    → (zlist_init L p m).2 ≡ some (tmp_foo p.data1 first ∷ tmp_foo p.data2 second ∷ [])
unfolding zlist_init
zlist_init-walks L p m apart =
    let first_at : data_at p p.data1 ≡ some first = ground (arith, apart.data1_not) in
    let second_at : data_at p p.data2 ≡ some second = ground (arith, apart.datas) in
    rw (linked_heads L p m apart) (
      by_entry-member (data_at p) p.data1 first (member list_offset p.data2 ∷ [])
        (omega (arith, apart.data1_inside)) first_at
      ∙ ap (prepend (tmp_foo p.data1 first ∷ [])) (
          by_entry-member (data_at p) p.data2 second [] (omega (arith, apart.data2_inside))
            second_at)
      ∙ (unfold by_entry in refl))
