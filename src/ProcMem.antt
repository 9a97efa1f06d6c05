-- ===== src/ProcMem.antt =====
-- The program src/kernel/linux_memory/user_task_page/proc_mem.c, which stops a process and reads its
-- memory.
pub mod Release
mod Tests
use linux_summary.Base.{
  ℕ, zero, suc, ◌+◌, ◌-◌, Bool, true, false, if◌then◌else◌, Option, none, some, List, [], ◌∷◌, ◌++◌,
  length, take, drop,
}
use linux_summary.Base.Int.{ℤ, pos, negsuc, pos_part}
use linux_summary.Base.Text.{codes, digits}

-- The numbers that `atoi` and `sscanf` read from the arguments.
pub record Args : Type 0 where
  pub pid : ℕ
  pub addr : ℕ
  pub len : ℤ

-- The results of the calls: `waits` that `waitpid` found the process stopped; what `malloc`
-- leaves in the new memory, and the bytes that `read` puts there (none where it fails).
pub record Answers : Type 0 where
  pub opens : Bool
  pub attaches : Bool
  pub waits : Bool
  pub seeks : Bool
  pub malloc : Option (List ℕ)
  pub read : List ℕ

pub data Act : Type 0 where
  opened : List ℕ → Act
  attached waited detached : (pid : ℕ) → Act
  allocated freed closed : Act
  shown : List ℕ → Act

abbrev pub buf_len : ℕ
buf_len = 32

-- The name in `fname`, of type `char[BUFLEN]`.
unfoldable pub fname : ℕ → List ℕ
fname pid = take (buf_len - 1) (codes "/proc/" ++ digits b'a' 10 20 pid ++ codes "/mem")

-- `read` into `buf`.
abbrev pub read_into : List ℕ → List ℕ → List ℕ
read_into bytes buf = bytes ++ drop (length bytes) buf

-- The loop over `buf[i]`; the result of `read` is not looked at.
unfoldable pub show_data : Args → Answers → List ℕ → Act
show_data args a buf = shown (take (pos_part args.len) (read_into a.read buf))

-- From `malloc` on, up to the label `out2`.
unfoldable pub read_mem : Args → Answers → List Act
unfolding show_data
read_mem args a = elim a.malloc [
  | none ↦ []
  | some buf ↦ allocated ∷ show_data args a buf ∷ freed ∷ []
]

-- From `waitpid` up to the label `out`.
unfoldable pub traced : Args → Answers → List Act
unfolding read_mem
traced args a =
    let data_read = if a.seeks then read_mem args a else [] in
    let waited_for = if a.waits then waited args.pid ∷ data_read else [] in
    attached args.pid ∷ waited_for ++ detached args.pid ∷ []

-- The program: its exit code and its acts.
unfoldable pub main : Option Args → Answers → ℕ × List Act
unfolding traced fname
main none a = (1, [])
main (some args) a =
    if a.opens
    then (0, opened (fname args.pid) ∷ (if a.attaches then traced args a else []) ++ closed ∷ [])
    else (1, [])
