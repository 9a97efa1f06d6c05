-- ===== src/Procfs.antt =====
-- The files under /proc of src/kernel/procfs/zproc.c and src/linux/affinity/cpu_affinity.c: a number
-- is written to them as text, and what the kernel has for it is read.
pub mod Write
pub mod Zproc
pub mod Affinity
pub mod Buddy
pub mod Nodes
pub mod Files
pub mod Sessions
mod Tests
use linux_summary.Base.{
  ℕ, ◌-◌, Bool, true, false, Option, none, some, List, [], ◌∷◌, ◌++◌, ◌||◌, ltb, ◌==◌,
  if◌then◌else◌, take, replicate,
}
use linux_summary.Base.Int.{ℤ, pos, efault}
use linux_summary.Base.Strto.{c_string, has_nul}

abbrev pub msg_len : ℕ
msg_len = 32

-- A write: its bytes, and whether `copy_from_user` fails.
pub record Input : Type 0 where
  pub count : ℕ
  pub bytes : List ℕ
  pub fails : Bool

-- `msg` after the copy.
unfoldable pub message : Input → List ℕ
message i =
    let len = if ltb i.count msg_len then i.count else msg_len in
    take len i.bytes ++ replicate (msg_len - len) 0

-- `kstrtol(msg, base, &v)`, which leaves v as it is where it gives `none`. The result and v; `none`
-- where no NUL ends the text in `msg`, so that it is read beyond the array.
unfoldable pub write_number :
    (kstrtol : List ℕ → ℕ → Option ℤ) → (base : ℕ) → Input → ℤ → Option (ℤ × ℤ)
unfolding message c_string
write_number kstrtol base i v =
    if i.fails
    then some (efault, v)
    else (if has_nul (message i)
        then some
            (pos i.count, elim (kstrtol (c_string (message i)) base) [ none ↦ v | some n ↦ n ])
        else none)
