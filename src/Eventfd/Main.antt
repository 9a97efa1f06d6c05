-- ===== src/Eventfd/Main.antt =====
-- `main` of foo.c.
use linux_summary.Base.{
  ℕ, zero, suc, ◌+◌, ◌*◌, Bool, true, false, ◌&&◌, Option, none, some, List, [], ◌∷◌, ◌++◌, map,
  ◌==◌, if◌then◌else◌,
}

-- Which calls succeed, and the descriptor of each call of `eventfd`.
pub record Answers : Type 0 where
  pub malloc_efds : Bool
  pub malloc_pids : Bool
  pub malloc_params : Bool
  pub eventfd : ℕ → Option ℕ
  pub create_reader : Bool

pub data Block : Type 0 where
  efds pid_writes write_params : Block

-- What `main` does with its memory, its descriptors and its threads.
pub data Act : Type 0 where
  malloced freed : Block → Act
  opened closed : (fd : ℕ) → Act
  reads : List ℕ → Act
  writes : (fd interval times : ℕ) → Act

abbrev pub efd_num : ℕ
efd_num = 3

abbrev pub write_num : ℕ
write_num = 10

-- `efds[i] = eventfd(0, 0)` for the `n` slots from i on: the descriptors made, and whether all are.
unfoldable pub open_all : (ℕ → Option ℕ) → (i n : ℕ) → List ℕ × Bool
open_all eventfd i zero = ([], true)
open_all eventfd i (suc n) = elim (eventfd i) [
  | none ↦ ([], false)
  | some fd ↦ (let (fds, all) = open_all eventfd (i + 1) n in (fd ∷ fds, all))
]

-- The writers; nothing looks at whether they could be made.
unfoldable pub start_writers : ℕ → List ℕ → List Act
start_writers i [] = []
start_writers i (fd ∷ fds) = writes fd (2 * i + 1) write_num ∷ start_writers (i + 1) fds

abbrev pub free_all : List Act
free_all = freed write_params ∷ freed pid_writes ∷ freed efds ∷ []

-- From the descriptors on, with all memory there: the exit code and the acts.
unfoldable pub with_memory : Answers → ℕ × List Act
unfolding open_all start_writers
with_memory a =
    let (fds, all) = open_all a.eventfd 0 efd_num in
    if all && a.create_reader
    then (0, map opened fds ++ (reads fds ∷ (start_writers 0 fds ++ (map closed fds ++ free_all))))
    else (1, map opened fds ++ free_all)

unfoldable pub main : Answers → ℕ × List Act
unfolding with_memory
main a =
    let (code, acts) = with_memory a in
    if a.malloc_efds
    then (if a.malloc_pids
        then (if a.malloc_params
            then (code, malloced efds ∷ malloced pid_writes ∷ malloced write_params ∷ acts)
            else (1, malloced efds ∷ malloced pid_writes ∷ freed pid_writes ∷ freed efds ∷ []))
        else (1, malloced efds ∷ freed efds ∷ []))
    else (1, [])

-- What is held: the blocks, and the descriptors in the order in which they were made.
pub record Held : Type 0 where
  pub has_efds : Bool
  pub has_pid_writes : Bool
  pub has_write_params : Bool
  pub fds : List ℕ

abbrev pub nothing : Held
nothing = record { has_efds = false; has_pid_writes = false; has_write_params = false; fds = [] }

abbrev pub remove : ℕ → List ℕ → List ℕ
remove fd [] = []
remove fd (x ∷ xs) = if x == fd then xs else x ∷ remove fd xs

abbrev pub hold : Bool → Block → Held → Held
hold b efds h = record h { has_efds = b }
hold b pid_writes h = record h { has_pid_writes = b }
hold b write_params h = record h { has_write_params = b }

abbrev pub behind : List Act → Held → Held
behind [] h = h
behind (malloced b ∷ acts) h = behind acts (hold true b h)
behind (freed b ∷ acts) h = behind acts (hold false b h)
behind (opened fd ∷ acts) h = behind acts (record h { fds = h.fds ++ fd ∷ [] })
behind (closed fd ∷ acts) h = behind acts (record h { fds = remove fd h.fds })
behind (reads fds ∷ acts) h = behind acts h
behind (writes fd interval times ∷ acts) h = behind acts h

-- Every call succeeds.
abbrev pub all_well : Answers → Bool
all_well a =
    a.malloc_efds
    && (a.malloc_pids && (a.malloc_params && ((open_all a.eventfd 0 efd_num).1 && a.create_reader)))

-- The descriptors made before the first failure.
abbrev pub made : Answers → List ℕ
made a =
    if a.malloc_efds && (a.malloc_pids && a.malloc_params)
    then (open_all a.eventfd 0 efd_num).0
    else []

abbrev pub memory : Held
memory = record { has_efds = true; has_pid_writes = true; has_write_params = true; fds = [] }
