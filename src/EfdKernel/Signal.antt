-- ===== src/EfdKernel/Signal.antt =====
-- The module efd_lkm.c and the program efd_us.c together.
use linux_summary.Base.{
  ℕ, zero, suc, ◌+◌, ◌-◌, ◌*◌, ◌^◌, ◌<◌, min, ◌≡◌, ◌≢◌, refl, ap, ◌∙◌, false, ◌==◌, if◌then◌else◌,
  Option, none, some, [], ◌∷◌, arith,
}
use linux_summary.Vsock.{==_same}
use linux_summary.EfdKernel.{
  File, eventfd, other_file, loaded, no_task, no_file, error_pointer, Kernel, context, error,
  signal, init_module, ended, read_events, wake,
}

-- The tasks of a kernel with one program, which has one file.
abbrev pub tasks : (pid efd : ℕ) → File → ℕ → Option (ℕ → Option File)
tasks pid efd file p = if p == pid then some (λ fd. if fd == efd then some file else none) else none

-- What the kernel says of eventfds: the count is held below 2 ^ 64, the context of another file
-- is an error pointer, and a count that is not 0 is read.
pub record IsKernel (k : Kernel) : Type 0 where
  pub fileget : (count : ℕ) → k.eventfd_ctx_fileget (eventfd count) ≡ context count
  pub fileget_other : k.eventfd_ctx_fileget other_file ≡ error
  pub signal_adds : (count n : ℕ) → k.eventfd_signal count n ≡ min (count + n) (2 ^ 64 - 1)
  pub reads : (count : ℕ) → 0 < count → k.read (eventfd count) ≡ some count

-- The module loaded `n` times for the program: the count of its eventfd, from `count`.
abbrev pub load_times : Kernel → (pid efd n count : ℕ) → Option ℕ
load_times k pid efd zero count = some count
load_times k pid efd (suc n) count = elim (init_module k (tasks pid efd (eventfd count)) pid efd) [
  | loaded ret (some (eventfd count')) ↦ load_times k pid efd n count'
  | loaded ret (some other_file) ↦ none
  | loaded ret none ↦ none
  | no_task ↦ none
  | no_file ↦ none
  | error_pointer ↦ none
]

init_module-signal :
    (k : Kernel) (pid efd : ℕ) (file : File)
    → init_module k (tasks pid efd file) pid efd ≡ signal k (k.eventfd_ctx_fileget file)
unfolding init_module
init_module-signal k pid efd file = rw (init_module, ==_same pid, ==_same efd) refl

load_times-count :
    {k : Kernel} (is : IsKernel k) (pid efd n count : ℕ)
    → count < 2 ^ 64
    → load_times k pid efd n count ≡ some (min (count + 123 * n) (2 ^ 64 - 1))
unfolding signal
load_times-count {k} is pid efd zero count h = ap (λ c. some c) (omega arith)
load_times-count {k} is pid efd (suc n) count h =
    rw
      (
        load_times,
        init_module-signal k pid efd (eventfd count),
        is.fileget count,
        is.signal_adds count 123,
      )
      (load_times-count is pid efd n (min (count + 123) (2 ^ 64 - 1)) (omega arith)
        ∙ ap (λ c. some c) (omega arith))

-- The module, loaded any number of times but none for a program that waits: each load adds 123 to
-- the count of the program's eventfd, held below 2 ^ 64, and the program that then wakes prints
-- this sum and ends with 0. For a file that is no eventfd the module uses an error pointer, and
-- for a process that is not there, or a file, it uses what is not there.
pub load-read :
    {k : Kernel} (is : IsKernel k) (pid efd n : ℕ)
    → 0 < n
    → ((count : ℕ) × (load_times k pid efd n 0 ≡ some count)
        × (wake (some (k.read (eventfd count) ∷ [])) ≡ ended 0 (min (123 * n) (2 ^ 64 - 1) ∷ [])))
      × (init_module k (tasks pid efd other_file) pid efd ≡ error_pointer)
      × ((file : File) (other : ℕ)
          → other ≢ pid
          → init_module k (tasks pid efd file) other efd ≡ no_task)
      × ((file : File) (other : ℕ)
          → other ≢ efd
          → init_module k (tasks pid efd file) pid other ≡ no_file)
unfolding wake read_events signal init_module
load-read {k} is pid efd n h =
    let count = min (0 + 123 * n) (2 ^ 64 - 1) in
    (
      (
        count,
        load_times-count is pid efd n 0 (omega arith),
        rw (wake, is.reads count (omega (arith, h))) (ap (λ c. ended 0 (c ∷ [])) (omega arith)),
      ),
      rw (init_module-signal k pid efd other_file, is.fileget_other) refl,
      λ file other e.
          let apart : (other == pid) ≡ false = ground (arith, e) in rw (init_module, apart) refl,
      λ file other e.
          let apart : (other == efd) ≡ false = ground (arith, e) in
          rw (init_module, ==_same pid, apart) refl,
    )
