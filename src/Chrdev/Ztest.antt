-- ===== src/Chrdev/Ztest.antt =====
-- src/linux/linux-inside/ztest.c: registration, and the ioctls that list processes and files.
use linux_summary.Base.{
  ℕ, ◌+◌, ◌-◌, ◌*◌, ◌≡◌, ◌≢◌, Bool, true, false, ◌&&◌, ◌||◌, Option, none, some, List, [], ◌∷◌, leb,
  ◌==◌, if◌then◌else◌, get_elem?, get_elem?-zero, get_elem?-cons, arith,
}
use linux_summary.Base.Int.{ℤ, pos, negsuc, einval}
use linux_summary.Chrdev.{Held, is_null, is_object}
use linux_summary.Chrdev.Ofcd.{Answers}

unfoldable pub ztest_init : Answers → Held → ℤ × Held
ztest_init a h =
    let added = record h { region = true; cdev = true } in
    let made = record added { class = is_object a.class_create } in
    let device = a.device_create a.class_create in
    if a.alloc
    then (if a.add
        then (if is_null a.class_create
            then (negsuc 0, added)
            else (if is_null device
                then (negsuc 0, made)
                else (pos 0, record made { device = is_object device })))
        else (negsuc 0, record h { region = true }))
    else (negsuc 0, h)

-- `none` where `device_destroy` is given what is no class.
unfoldable pub ztest_exit : Held → Option Held
ztest_exit h =
    if h.class
    then some (record h { cdev = false; device = false; class = false; region = false })
    else none

-- `_IO(0x66, n)`
abbrev pub ioctl_of : ℕ → ℕ
ioctl_of n = 0x66 * 256 + n

-- A task: its pid, that of its group, its state, and its table of descriptors, each with the path
-- of its file.
pub record Task : Type 0 where
  pub pid : ℕ
  pub tgid : ℕ
  pub state : ℕ
  pub files : List (Option ℕ)

-- What an ioctl prints: a task, a descriptor with its path, or the thread that
-- calls with its processor.
pub data Line : Type 0 where
  process : (pid state : ℕ) → Line
  file : (fd path : ℕ) → Line
  thread : (cpu pid tgid : ℕ) → Line

-- `for_each_process(task)`
unfoldable pub list_processes : List Task → List Line
list_processes [] = []
list_processes (t ∷ tasks) = process t.pid t.state ∷ list_processes tasks

-- `for (i = 0; i < max_fds; i++)`, with the free descriptors passed over.
unfoldable pub list_files : ℕ → List (Option ℕ) → List Line
list_files i [] = []
list_files i (none ∷ fds) = list_files (i + 1) fds
list_files i (some path ∷ fds) = file i path ∷ list_files (i + 1) fds

-- The kernel's tasks: all of them, the calling one with its processor, and the one of a pid.
pub record Kernel : Type 0 where
  pub tasks : List Task
  pub current : Task
  pub cpu : ℕ
  pub find : ℕ → Option Task

-- `my_get_current_thread_info`, without the addresses that it prints.
unfoldable pub my_get_current_thread_info : Kernel → Line
my_get_current_thread_info k = thread k.cpu k.current.pid k.current.tgid

-- The result and what is printed; `none` where a task that is not there is read.
unfoldable pub my_ioctl : Kernel → (cmd arg : ℕ) → Option (ℤ × List Line)
unfolding list_processes list_files my_get_current_thread_info
my_ioctl k cmd arg =
    if cmd == ioctl_of 0
    then some (pos 0, list_processes k.tasks)
    else (if cmd == ioctl_of 1
        then (if arg == 0
            then some (pos 0, list_files 0 k.current.files)
            else elim (k.find arg) [ none ↦ none | some t ↦ some (pos 0, list_files 0 t.files) ])
        else (if cmd == ioctl_of 2
            then some (pos 0, my_get_current_thread_info k ∷ [])
            else some (einval, [])))

-- Whether a file is among what is printed.
abbrev pub prints : ℕ → ℕ → List Line → Bool
prints fd path [] = false
prints fd path (file i p ∷ lines) = (i == fd) && (p == path) || prints fd path lines
prints fd path (process pid state ∷ lines) = prints fd path lines
prints fd path (thread cpu pid tgid ∷ lines) = prints fd path lines

-- Whether a slot of the table holds this file.
abbrev pub holds : ℕ → Option (Option ℕ) → Bool
holds path none = false
holds path (some none) = false
holds path (some (some p)) = p == path

list_files-holds :
    (i fd path : ℕ) (fds : List (Option ℕ))
    → prints fd path (list_files i fds) ≡ (leb i fd && holds path (get_elem? fds (fd - i)))
unfolding list_files
list_files-holds i fd path [] = ground arith
list_files-holds i fd path (none ∷ fds) = ground (
  arith,
  list_files-holds (i + 1) fd path fds,
  get_elem?-zero {A = Option ℕ} none fds (fd - i),
  get_elem?-cons {A = Option ℕ} none fds (fd - i),
)
list_files-holds i fd path (some p ∷ fds) = ground (
  arith,
  list_files-holds (i + 1) fd path fds,
  get_elem?-zero (some p) fds (fd - i),
  get_elem?-cons (some p) fds (fd - i),
)

-- The files ioctl on a task that is there prints a descriptor with a path exactly when the task's
-- table has that file in that slot; on a pid without a task it reads through NULL.
pub my_ioctl-files :
    (k : Kernel) (arg : ℕ)
    → arg ≢ 0
    → ((t : Task)
        → k.find arg ≡ some t
        → (lines : List Line) × (my_ioctl k (ioctl_of 1) arg ≡ some (pos 0, lines))
          × ((fd path : ℕ) → prints fd path lines ≡ holds path (get_elem? t.files fd)))
      × (k.find arg ≡ none → my_ioctl k (ioctl_of 1) arg ≡ none)
unfolding my_ioctl
my_ioctl-files k arg ne = (
  λ t found. (
    list_files 0 t.files,
    ground arith,
    λ fd path. ground (arith, list_files-holds 0 fd path t.files),
  ),
  λ gone. ground arith,
)
