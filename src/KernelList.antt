-- ===== src/KernelList.antt =====
-- The modules that keep or walk a list of the kernel: src/kernel/data_struct/list and
-- src/kernel/default_variable/this_module. The macros of `linux/list.h` are what this file asks for.
pub mod ContainerOf
pub mod Zlist
pub mod Zlist2
pub mod Zmodule
mod Tests
use linux_summary.Base.{
  ℕ, ◌+◌, ◌-◌, ◌*◌, ◌%◌, ◌^◌, ◌≤◌, ◌<◌, ◌≡◌, ◌⊎◌, All, refl, Option, none, some, List, [], ◌∷◌,
  ◌++◌, arith,
}

-- The size of a `struct list_head`, two pointers.
abbrev pub head_size : ℕ
head_size = 16

-- Two heads, neither of which lies over a part of the other.
abbrev pub Disjoint : ℕ → ℕ → Type 0
Disjoint a b = (a + head_size ≤ b) ⊎ (b + head_size ≤ a)

-- Heads of lists in memory, at their addresses, with `INIT_LIST_HEAD`, `list_add_tail` and the
-- heads that `list_for_each` visits from one on; none where that one is in no list. A head that
-- is added is one that the list does not have.
pub record Lists : Type 1 where
  pub Memory : Type 0
  pub init : ℕ → Memory → Memory
  pub add_tail : (new head : ℕ) → Memory → Memory
  pub for_each : ℕ → Memory → Option (List ℕ)
  pub for_each-init : (h : ℕ) (m : Memory) → for_each h (init h m) ≡ some []
  pub for_each-add_tail :
      (new h : ℕ) (m : Memory) (xs : List ℕ)
      → for_each h m ≡ some xs
      → Disjoint new h
      → All (Disjoint new) xs
      → for_each h (add_tail new h m) ≡ some (xs ++ new ∷ [])

-- `list_entry`, which is `container_of`: the structure whose member at an offset has this address.
abbrev pub list_entry : (offset ptr : ℕ) → ℕ
list_entry offset ptr = (ptr + 2 ^ 64 - offset) % 2 ^ 64

-- The address of a member.
abbrev pub member : (offset ptr : ℕ) → ℕ
member offset ptr = (ptr + offset) % 2 ^ 64

pub list_entry-member :
    (offset ptr : ℕ) → ptr < 2 ^ 64 → offset < 2 ^ 64 → list_entry offset (member offset ptr) ≡ ptr
list_entry-member offset ptr h k = omega arith

-- What a list holds to which two heads have been added.
pub two_added :
    (L : Lists) (a b h : ℕ) (m : L.Memory)
    → Disjoint a h
    → Disjoint b h
    → Disjoint b a
    → L.for_each h (L.add_tail b h (L.add_tail a h (L.init h m))) ≡ some (a ∷ b ∷ [])
two_added L a b h m ah bh ba =
    L.for_each-add_tail b h (L.add_tail a h (L.init h m)) (a ∷ [])
      (L.for_each-add_tail a h (L.init h m) [] (L.for_each-init h m) ah tt) bh (ba, tt)

-- Heads in a ring: those that `list_for_each` visits from one on, and `prev`.
pub record Ring : Type 0 where
  pub for_each : ℕ → Option (List ℕ)
  pub prev : ℕ → ℕ
  pub turned :
      (h n : ℕ) (xs ys : List ℕ)
      → for_each h ≡ some (xs ++ n ∷ ys)
      → for_each n ≡ some (ys ++ h ∷ xs)
  pub prev_last : (n p : ℕ) (xs : List ℕ) → for_each n ≡ some (xs ++ p ∷ []) → prev n ≡ p
