-- ===== src/KernelList/ContainerOf.antt =====
-- src/linux/struct/container_of/container_of.c, with a `container_of` of its own.
use linux_summary.Base.{ℕ, ◌^◌, ◌<◌, ◌≡◌, arith}
use linux_summary.KernelList.{list_entry, member, list_entry-member}

-- The member `t` of `FOO_INFO` behind an `int` and a `char`.
abbrev pub t_offset : ℕ
t_offset = 8

-- The two addresses that are printed.
unfoldable pub main : (info : ℕ) → ℕ × ℕ
main info = (info, list_entry t_offset (member t_offset info))

-- The structure that is found from the member is the one that has it.
pub main-same : (info : ℕ) → info < 2 ^ 64 → (main info).1 ≡ (main info).0
unfolding main
main-same info h = list_entry-member t_offset info h (omega arith)
