-- ===== src/EfdKernel.antt =====
-- The module src/linux/eventfd/efd_lkm.c, which signals an eventfd of a program, and the program
-- efd_us.c, which waits for it.
pub mod Signal
mod Tests
use linux_summary.Base.{
  ℕ, zero, suc, ◌+◌, ◌-◌, ◌*◌, ◌^◌, min, Bool, true, false, ◌==◌, if◌then◌else◌, Option, none, some,
  List, [], ◌∷◌, ◌++◌,
}
use linux_summary.Base.Int.{ℤ, pos, negsuc}

-- A file of a program: an eventfd with its count, or another one.
pub data File : Type 0 where
  eventfd : (count : ℕ) → File
  other_file : File

-- What `init_module` leads to: its result with the file behind it; or a use of a task, of a file or
-- of an error pointer as if they were there.
pub data Loaded : Type 0 where
  loaded : ℤ → Option File → Loaded
  no_task no_file error_pointer : Loaded

-- An eventfd's context, NULL, or an error pointer.
pub data Context : Type 0 where
  context : (count : ℕ) → Context
  null error : Context

-- What the two use of the kernel: `eventfd_ctx_fileget`, `eventfd_signal` on a count, and `read` of
-- an eventfd, none where it does not give eight bytes.
pub record Kernel : Type 0 where
  pub eventfd_ctx_fileget : File → Context
  pub eventfd_signal : (count n : ℕ) → ℕ
  pub read : File → Option ℕ

-- The module behind `fcheck_files`.
unfoldable pub signal : Kernel → Context → Loaded
signal k (context count) = loaded (pos 0) (some (eventfd (k.eventfd_signal count 123)))
signal k null = loaded (negsuc 0) none
signal k error = error_pointer

-- The module: `pid_task` gives the files of the program, if there is one, and `fcheck_files` one of
-- them.
unfoldable pub init_module :
    Kernel → (pid_task : ℕ → Option (ℕ → Option File)) → (pid efd : ℕ) → Loaded
unfolding signal
init_module k pid_task pid efd = elim (pid_task pid) [
  | none ↦ no_task
  | some files ↦ elim (files efd) [
    | none ↦ no_file
    | some file ↦ signal k (k.eventfd_ctx_fileget file)
  ]
]

-- The program's calls before it waits: the descriptors of `eventfd` and `epoll_create1`, and whether
-- `epoll_ctl` succeeds.
pub record Answers : Type 0 where
  pub eventfd_fd : Option ℕ
  pub epoll_create1 : Option ℕ
  pub epoll_ctl : Bool

-- How the program stands: it waits with its eventfd, or has ended, with what it has printed.
pub data Program : Type 0 where
  waiting : (efd : ℕ) → Program
  ended : (code : ℕ) → List ℕ → Program

unfoldable pub start : Answers → Program
start a = elim a.eventfd_fd [
  | none ↦ ended 1 []
  | some efd ↦ elim a.epoll_create1 [
    | none ↦ ended 1 []
    | some epollfd ↦ if a.epoll_ctl then waiting efd else ended 1 []
  ]
]

-- The loop over the descriptors that `epoll_wait` reports, with the results of `read`.
unfoldable pub read_events : List (Option ℕ) → (printed : List ℕ) → Program
read_events [] printed = ended 0 printed
read_events (none ∷ rest) printed = ended 1 printed
read_events (some count ∷ rest) printed = read_events rest (printed ++ count ∷ [])

-- The program when `epoll_wait` returns: with -1, or with the results of the reads to come.
unfoldable pub wake : Option (List (Option ℕ)) → Program
unfolding read_events
wake none = ended 1 []
wake (some counts) = read_events counts []
