-- ===== src/ProcMem/Release.antt =====
-- proc_mem.c: what it takes and gives back, and what it shows.
use linux_summary.Base.{
  ℕ, ◌≤◌, ◌≡◌, refl, true, if◌then◌else◌, ◌==◌, Option, none, some, List, [], ◌∷◌, ◌++◌, length,
  drop, length-append, length-drop, take-length_le, arith,
}
use linux_summary.Base.Int.{pos}
use linux_summary.Base.Text.{codes, digits, length-digits_fuel}
use linux_summary.ProcMem.{
  Args, Answers, Act, opened, attached, waited, detached, allocated, freed, closed, shown, fname,
  read_into, show_data, read_mem, traced, main,
}

-- What is held: nothing; the file; the process, traced but not yet seen to stop; the process,
-- stopped; the memory too.
pub data Held : Type 0 where
  nothing file : Held
  process stopped memory : (pid : ℕ) → Held

-- An act, where what it needs is held: memory is taken and bytes are shown only of a process that
-- `waitpid` has found stopped.
abbrev pub act : Act → Held → Option Held
act (opened name) nothing = some file
act (attached pid) file = some (process pid)
act (waited pid) (process other) = if pid == other then some (stopped other) else none
act allocated (stopped pid) = some (memory pid)
act (shown bytes) (memory pid) = some (memory pid)
act freed (memory pid) = some (stopped pid)
act (detached pid) (stopped other) = if pid == other then some file else none
act (detached pid) (process other) = if pid == other then some file else none
act closed file = some nothing
act other held = none

abbrev pub acts : List Act → Held → Option Held
acts [] held = some held
acts (a ∷ rest) held = elim (act a held) [ none ↦ none | some held' ↦ acts rest held' ]

fname-whole : (pid : ℕ) → fname pid ≡ codes "/proc/" ++ digits b'a' 10 20 pid ++ codes "/mem"
unfolding fname
fname-whole pid =
    let ds = digits b'a' 10 20 pid in
    take-length_le 31 (codes "/proc/" ++ ds ++ codes "/mem") (
      omega (
        arith,
        length-append (codes "/proc/" ++ ds) (codes "/mem"),
        length-append (codes "/proc/") ds,
        length-digits_fuel b'a' 10 20 pid,
      ))

-- Where all calls succeed and `malloc` gives `len` bytes: the whole name of the process's memory
-- fits into `fname`, and what is shown is what `read` gave, of at most `len` bytes, and behind
-- it, where that is less, what was in the memory that `malloc` gave.
pub main-shows :
    (args : Args) (a : Answers) (buf : List ℕ)
    → a.opens ≡ true
    → a.attaches ≡ true
    → a.waits ≡ true
    → a.seeks ≡ true
    → a.malloc ≡ some buf
    → args.len ≡ pos (length buf)
    → length a.read ≤ length buf
    → main (some args) a ≡ (
      0,
      opened (codes "/proc/" ++ digits b'a' 10 20 args.pid ++ codes "/mem")
          ∷ attached args.pid
          ∷ waited args.pid
          ∷ allocated
          ∷ shown (a.read ++ drop (length a.read) buf)
          ∷ freed
          ∷ detached args.pid
          ∷ closed
          ∷ [],
    )
unfolding main traced read_mem show_data
main-shows args a buf e f g h i len short =
    let all = read_into a.read buf in
    let size : length all ≤ length buf =
      omega
        (arith, length-append a.read (drop (length a.read) buf), length-drop (length a.read) buf) in
    rw
      (
        main,
        e,
        f,
        traced,
        g,
        h,
        read_mem,
        i,
        show_data,
        len,
        fname-whole args.pid,
        take-length_le (length buf) all size,
      )
      refl
