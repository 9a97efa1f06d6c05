-- ===== src/KernelList/Tests.antt =====
-- The theorems on the list modules, with lists and rings that are kept in small tables.
use linux_summary.Base.{
  ℕ, ◌≡◌, refl, true, Option, none, some, List, [], ◌∷◌, ◌++◌, All, ◌==◌, if◌then◌else◌, arith,
}
use linux_summary.Base.Int.{pos}
use linux_summary.KernelList.{Disjoint, Lists, Ring}
use linux_summary.KernelList.Zlist.{Places, Apart, lines_of, ztest_init}
use linux_summary.KernelList.Zlist.Walks.{ztest_init-walks}
use linux_summary.KernelList.Zmodule
use linux_summary.KernelList.Zmodule.{Kernel, Loaded, ztest_init-modules}

-- Each head with the list behind it.
abbrev update : ℕ → List ℕ → (ℕ → Option (List ℕ)) → ℕ → Option (List ℕ)
update h xs m k = if k == h then some xs else m k

abbrev or_none : Option (List ℕ) → List ℕ
or_none none = []
or_none (some xs) = xs

==_self : (n : ℕ) → (n == n) ≡ true
==_self n = ground arith

updated : (h : ℕ) (xs : List ℕ) (m : ℕ → Option (List ℕ)) → update h xs m h ≡ some xs
updated h xs m = rw (==_self h) refl

appended :
    (new h : ℕ) (m : ℕ → Option (List ℕ)) (xs : List ℕ)
    → m h ≡ some xs
    → Disjoint new h
    → All (Disjoint new) xs
    → update h (or_none (m h) ++ new ∷ []) m h ≡ some (xs ++ new ∷ [])
appended new h m xs e apart_head apart_heads = rw (==_self h, e) refl

abbrev table : Lists
table = record {
  Memory = ℕ → Option (List ℕ);
  init = λ h m. update h [] m;
  add_tail = λ new h m. update h (or_none (m h) ++ new ∷ []) m;
  for_each = λ h m. m h;
  for_each-init = λ h m. updated h [] m;
  for_each-add_tail = appended;
}

abbrev places : Places
places = record { myfoo = 1000; foo1 = 2000; foo2 = 3000 }

apart : Apart places
apart = omega arith

ztest_init-walks_example :
    let (ret, lines, m') = ztest_init table places (λ h. none) in
    (ret ≡ pos 0) × (lines ≡ some (lines_of places)) × (m' 1008 ≡ some (2008 ∷ 3008 ∷ []))
ztest_init-walks_example = ztest_init-walks table places (λ h. none) apart

-- A ring of the kernel's head 1 and of this module's 2.
abbrev two : ℕ → Option (List ℕ)
two h = if h == 1 then some (2 ∷ []) else (if h == 2 then some (1 ∷ []) else none)

abbrev other : ℕ → ℕ
other h = if h == 1 then 2 else (if h == 2 then 1 else h)

two_turned : (h n : ℕ) (xs ys : List ℕ) → two h ≡ some (xs ++ n ∷ ys) → two n ≡ some (ys ++ h ∷ xs)
two_turned h n [] ys e = ground arith
two_turned h n (x ∷ []) ys e = ground arith
two_turned h n (x ∷ y ∷ xs) ys e = ground arith

two_prev : (n p : ℕ) (xs : List ℕ) → two n ≡ some (xs ++ p ∷ []) → other n ≡ p
two_prev n p [] e = ground arith
two_prev n p (x ∷ []) e = ground arith
two_prev n p (x ∷ y ∷ xs) e = ground arith

abbrev ring : Ring
ring = record { for_each = two; prev = other; turned = two_turned; prev_last = two_prev }

-- This module, named 70, uses the one named 80.
abbrev kernel : Kernel
kernel = record {
  modules = λ h. if h == 2 then some (record { name = 70; target_list = 5 ∷ [] }) else none;
  use_target = λ u. some 80;
}

abbrev this : Loaded
this = record { head = 2; line = record { name = 70; depends = 80 ∷ [] } }

depends_one : Zmodule.depends (λ u. some 80) (5 ∷ []) ≡ some (80 ∷ [])
unfolding Zmodule.depends
depends_one = refl

ztest_init-modules_example :
    Zmodule.ztest_init ring kernel 2 ≡ some (pos 0, record { name = 70; depends = 80 ∷ [] } ∷ [], 2)
ztest_init-modules_example =
    ztest_init-modules ring kernel 1 [] this []
      ((record { name = 70; target_list = 5 ∷ [] }, refl, refl, depends_one), tt) refl refl
