-- ===== src/EfdKernel/Tests.antt =====
-- The module and the program at two loads.
use linux_summary.Base.{
  ℕ, zero, suc, ◌+◌, ◌<◌, Option, none, ◌-◌, ◌*◌, ◌^◌, min, ◌≡◌, ◌≢◌, true, some, [], ◌∷◌, refl,
  arith,
}
use linux_summary.EfdKernel.{
  File, eventfd, other_file, error_pointer, no_task, no_file, init_module, waiting, ended, start,
  wake, Kernel, Context, context, error,
}
use linux_summary.EfdKernel.Signal.{tasks, load_times, IsKernel, load-read}

abbrev fileget : File → Context
fileget (eventfd count) = context count
fileget other_file = error

abbrev count_of : File → Option ℕ
count_of (eventfd zero) = none
count_of (eventfd (suc n)) = some (suc n)
count_of other_file = none

abbrev kernel : Kernel
kernel = record {
  eventfd_ctx_fileget = fileget;
  eventfd_signal = λ count n. min (count + n) (2 ^ 64 - 1);
  read = count_of;
}

read-count : (count : ℕ) → 0 < count → count_of (eventfd count) ≡ some count
read-count zero h = absurd (omega (arith, h))
read-count (suc n) h = refl

kernel-IsKernel : IsKernel kernel
kernel-IsKernel = record {
  fileget = λ count. refl;
  fileget_other = refl;
  signal_adds = λ count n. refl;
  reads = read-count;
}

start-waits :
    start (record { eventfd_fd = some 3; epoll_create1 = some 4; epoll_ctl = true }) ≡ waiting 3
unfolding start
start-waits = refl

load-read_example :
    ((count : ℕ) × (load_times kernel 7 3 2 0 ≡ some count)
      × (wake (some (kernel.read (eventfd count) ∷ []))
          ≡ ended 0 (min (123 * 2) (2 ^ 64 - 1) ∷ [])))
    × (init_module kernel (tasks 7 3 other_file) 7 3 ≡ error_pointer)
    × ((file : File) (other : ℕ)
        → other ≢ 7
        → init_module kernel (tasks 7 3 file) other 3 ≡ no_task)
    × ((file : File) (other : ℕ)
        → other ≢ 3
        → init_module kernel (tasks 7 3 file) 7 other ≡ no_file)
load-read_example = load-read kernel-IsKernel 7 3 2 (omega arith)
