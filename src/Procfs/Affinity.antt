-- ===== src/Procfs/Affinity.antt =====
-- src/linux/affinity/cpu_affinity.c
use linux_summary.Base.{
  ℕ, zero, suc, ◌<◌, ◌≤◌, ◌≡◌, refl, false, Option, none, some, List, [], ◌∷◌, length,
}
use linux_summary.Base.Int.{ℤ, pos}
use linux_summary.Procfs.{Input, msg_len, write_number}
use linux_summary.Procfs.Write.{IsText, parsed_or, write_number-short, write_number-long}

-- `mempolicy`, by its mode.
pub data Policy : Type 0 where
  preferred bind interleave : (nodes : ℕ) → Policy
  other : (mode : ℕ) → Policy

-- `task_struct`; a task that has set no policy has none.
pub record Task : Type 0 where
  pub nr_cpus_allowed : ℕ
  pub cpus_allowed : ℕ
  pub mempolicy : Option Policy

-- What is printed.
pub data Line : Type 0 where
  pid_only no_task : ℤ → Line
  cpus : ℤ → (nr_cpus_allowed cpus_allowed : ℕ) → Line
  nodes : (mode nodes : ℕ) → Line

abbrev pub policy_lines : Policy → List Line
policy_lines (preferred n) = nodes 1 n ∷ []
policy_lines (bind n) = nodes 2 n ∷ []
policy_lines (interleave n) = nodes 3 n ∷ []
policy_lines (other mode) = []

-- `none` where the mode is read of a policy that is not there.
unfoldable pub proc_get_show : (ℤ → Option Task) → ℤ → Option (List Line)
proc_get_show find (pos zero) = some (pid_only (pos 0) ∷ [])
proc_get_show find pid = elim (find pid) [
  | none ↦ some (no_task pid ∷ [])
  | some t ↦ (elim t.mempolicy [
    | none ↦ none
    | some p ↦ some (cpus pid t.nr_cpus_allowed t.cpus_allowed ∷ policy_lines p)
  ])
]

-- The result, and `pid`.
unfoldable pub proc_get_write : (List ℕ → ℕ → Option ℤ) → Input → ℤ → Option (ℤ × ℤ)
unfolding write_number
proc_get_write kstrtol i pid = write_number kstrtol 10 i pid

-- A text with the number of a process, written and then read: while it is shorter than 32
-- characters, the file shows the process's processors, and its policy's nodes if it has set a
-- policy; a process that has set none is read through NULL. From 32 characters on the write reads
-- beyond `msg`.
pub proc_get_write-show :
    (kstrtol : List ℕ → ℕ → Option ℤ) (find : ℤ → Option Task) (text : List ℕ) (n : ℕ) (pid : ℤ)
    (t : Task)
    → IsText text
    → kstrtol text 10 ≡ some (pos (suc n))
    → find (pos (suc n)) ≡ some t
    → let i : Input = record { count = length text; bytes = text; fails = false } in
      (length text < msg_len
        → (pid' : ℤ) × (proc_get_write kstrtol i pid ≡ some (pos (length text), pid'))
          × ((p : Policy)
              → t.mempolicy ≡ some p
              → proc_get_show find pid'
                ≡ some (cpus (pos (suc n)) t.nr_cpus_allowed t.cpus_allowed ∷ policy_lines p))
          × (t.mempolicy ≡ none → proc_get_show find pid' ≡ none))
      × (msg_len ≤ length text → proc_get_write kstrtol i pid ≡ none)
unfolding proc_get_write proc_get_show
proc_get_write-show kstrtol find text n pid t h parsed found = (
  λ short. (
    pos (suc n),
    rw (write_number-short kstrtol 10 text pid h short, parsed_or, parsed) refl,
    λ p e. rw (proc_get_show, found, e) refl,
    λ e. rw (proc_get_show, found, e) refl,
  ),
  write_number-long kstrtol 10 text pid h,
)
