-- ===== src/KernelList/Zlist/Walks.antt =====
-- What the loops of zlist.c meet in the list that the module has linked.
use linux_summary.Base.{
  ℕ, ◌^◌, ◌<◌, ◌≡◌, refl, ap, ap₂, ◌∙◌, Option, none, some, List, [], ◌∷◌, ◌++◌, arith,
}
use linux_summary.Base.Int.{pos}
use linux_summary.KernelList.{Lists, member, list_entry-member}
use linux_summary.KernelList.Zlist.{
  Foo, list_offset, Places, Line, tmp_list, tmp_foo, foo_at, prepend, show_foo, by_list, by_entry,
  both, ztest_init, linked_heads, Apart, lines_of,
}

module _ (at : ℕ → Option Foo) where
  by_list-member :
      (a : ℕ) (foo : Foo) (ls : List ℕ)
      → a < 2 ^ 64
      → at a ≡ some foo
      → by_list at (member list_offset a ∷ ls)
        ≡ prepend (tmp_list (member list_offset a) ∷ tmp_foo a foo ∷ []) (by_list at ls)
  unfolding by_list
  by_list-member a foo ls h there =
      ap (λ b. show_foo at b (tmp_list (member list_offset a) ∷ []) (by_list at ls))
        (list_entry-member list_offset a h (omega arith))
      ∙ found a (at a) there
    where
      found :
          (b : ℕ) (r : Option Foo)
          → r ≡ some foo
          → elim r as (λ _. Option (List Line)) [
            | none ↦ none
            | some f ↦
                prepend ((tmp_list (member list_offset a) ∷ []) ++ tmp_foo b f ∷ []) (by_list at ls)
          ]
            ≡ prepend (tmp_list (member list_offset a) ∷ tmp_foo b foo ∷ []) (by_list at ls)
      found b r e = rw e refl

  pub by_entry-member :
      (a : ℕ) (foo : Foo) (ls : List ℕ)
      → a < 2 ^ 64
      → at a ≡ some foo
      → by_entry at (member list_offset a ∷ ls) ≡ prepend (tmp_foo a foo ∷ []) (by_entry at ls)
  unfolding by_entry
  by_entry-member a foo ls h there =
      ap (λ b. show_foo at b [] (by_entry at ls)) (list_entry-member list_offset a h (omega arith))
      ∙ found a (at a) there
    where
      found :
          (b : ℕ) (r : Option Foo)
          → r ≡ some foo
          → elim r as (λ _. Option (List Line)) [
            | none ↦ none
            | some f ↦ prepend (tmp_foo b f ∷ []) (by_entry at ls)
          ]
            ≡ prepend (tmp_foo b foo ∷ []) (by_entry at ls)
      found b r e = rw e refl

module _ (p : Places) (apart : Apart p) where
  foo1_at : foo_at p p.foo1 ≡ some (record { id = 1; c = b'b' })
  foo1_at = ground (arith, apart.foo1_not)

  foo2_at : foo_at p p.foo2 ≡ some (record { id = 2; c = b'c' })
  foo2_at = ground (arith, apart.foo2_not, apart.foos)

  walks :
      both
        (by_list (foo_at p) (member list_offset p.foo1 ∷ member list_offset p.foo2 ∷ []))
        (by_entry (foo_at p) (member list_offset p.foo1 ∷ member list_offset p.foo2 ∷ []))
      ≡ some (
          let b : Foo = record { id = 1; c = b'b' } in
          let c : Foo = record { id = 2; c = b'c' } in
          tmp_list (member list_offset p.foo1)
          ∷ tmp_foo p.foo1 b
          ∷ tmp_list (member list_offset p.foo2)
          ∷ tmp_foo p.foo2 c
          ∷ tmp_foo p.foo1 b
          ∷ tmp_foo p.foo2 c
          ∷ [])
  walks =
      let b : Foo = record { id = 1; c = b'b' } in
      let c : Foo = record { id = 2; c = b'c' } in
      let rest = member list_offset p.foo2 ∷ [] in
      ap₂ both
        (by_list-member (foo_at p) p.foo1 b rest (omega (arith, apart.foo1_inside)) foo1_at
          ∙ ap (prepend (tmp_list (member list_offset p.foo1) ∷ tmp_foo p.foo1 b ∷ []))
              (by_list-member (foo_at p) p.foo2 c [] (omega (arith, apart.foo2_inside)) foo2_at))
        (by_entry-member (foo_at p) p.foo1 b rest (omega (arith, apart.foo1_inside)) foo1_at
          ∙ ap (prepend (tmp_foo p.foo1 b ∷ []))
              (by_entry-member (foo_at p) p.foo2 c [] (omega (arith, apart.foo2_inside)) foo2_at))
      ∙ (unfold by_list by_entry in refl)

-- Whatever keeps the kernel's lists, and wherever the three structures are in memory, none over a
-- part of another: the module prints the structures that it has linked, in their order and with
-- their numbers and letters, in the loop over heads and in that over structures alike. Behind it
-- `myfoo` still links the two that stood on the stack.
pub ztest_init-walks :
    (L : Lists) (p : Places) (m : L.Memory)
    → Apart p
    → let (ret, lines, m') = ztest_init L p m in
      (ret ≡ pos 0)
      × (lines ≡ some (lines_of p))
      × (L.for_each (member list_offset p.myfoo) m'
          ≡ some (member list_offset p.foo1 ∷ member list_offset p.foo2 ∷ []))
unfolding ztest_init
ztest_init-walks L p m apart =
    (refl, rw (linked_heads L p m apart, walks p apart) refl, linked_heads L p m apart)
