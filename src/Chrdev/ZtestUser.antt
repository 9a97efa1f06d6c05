-- ===== src/Chrdev/ZtestUser.antt =====
-- src/linux/linux-inside/ztest_usr.c, whose three threads each ask the driver of ztest.c for the
-- thread that calls.
pub mod Calls
use linux_summary.Base.{
  ℕ, ◌+◌, Bool, true, false, Option, none, some, List, [], ◌∷◌, ◌++◌, if◌then◌else◌,
}
use linux_summary.Base.Int.{ℤ, pos, ltb_ℤ}
use linux_summary.Chrdev.Ztest.{Task, Kernel, Line, ioctl_of, my_ioctl}

-- Where a thread stands in `print_info`: not made, before its line, before its `ioctl`, or behind
-- it.
pub data Stage : Type 0 where
  absent fresh said asked : Stage

-- The next step of the main thread.
pub data Next : Type 0 where
  open_file create_first create_second info sleep exit_process gone : Next

-- The process: its main thread, the other two, whether `fd` is open, the lines on stdout with the
-- pid and tid that they show, the lines of the kernel, the errors of `ioctl`, and the exit code.
pub record Process : Type 0 where
  pub next : Next
  pub main : Stage
  pub first : Stage
  pub second : Stage
  pub fd_open : Bool
  pub out : List (ℕ × ℕ)
  pub log : List Line
  pub errors : ℕ
  pub code : Option ℕ

abbrev pub at_start : Process
at_start = record {
  next = open_file;
  main = fresh;
  first = absent;
  second = absent;
  fd_open = false;
  out = [];
  log = [];
  errors = 0;
  code = none;
}

-- The task of each thread, and the processor that it runs on.
pub record Tasks : Type 0 where
  pub kernel : Kernel
  pub main_task : Task
  pub first_task : Task
  pub second_task : Task

-- What `ioctl` leaves: `none` where the driver reads what is not there, so that the process ends
-- with it.
abbrev pub answered : Option (ℤ × List Line) → Process → Process
answered none p = record p { next = gone }
answered (some (ret, lines)) p =
    if ltb_ℤ ret (pos 0)
    then record p { log = p.log ++ lines; errors = p.errors + 1 }
    else record p { log = p.log ++ lines }

-- A step of `print_info` by a task: its line, or the call of the driver, which fails where `fd`
-- is closed.
unfoldable pub print_info : Kernel → Task → Stage → Process → Stage × Process
unfolding my_ioctl
print_info k t absent p = (absent, p)
print_info k t fresh p = (said, record p { out = p.out ++ (t.tgid, t.pid) ∷ [] })
print_info k t said p = (
  asked,
  if p.fd_open
      then answered (my_ioctl (record k { current = t }) (ioctl_of 2) 0) p
      else record p { errors = p.errors + 1 },
)
print_info k t asked p = (asked, p)

-- A step: of the main thread, with what its call gives, or of one of the others.
pub data Turn : Type 0 where
  main_turn : Bool → Turn
  first_turn second_turn : Turn

-- The main thread's step while it is in `print_info`; behind that it sleeps.
abbrev pub main_info : Stage → Process → Process
main_info asked p = record p { main = asked; next = sleep }
main_info stage p = record p { main = stage }

unfoldable pub main_step : Tasks → Bool → Next → Process → Process
unfolding print_info
main_step ts ok open_file p =
    if ok
    then record p { fd_open = true; next = create_first }
    else record p { code = some 1; next = gone }
main_step ts ok create_first p = record p {
  first = if ok then fresh else absent;
  next = create_second;
}
main_step ts ok create_second p = record p { second = if ok then fresh else absent; next = info }
main_step ts ok info p =
    let (stage, p') = print_info ts.kernel ts.main_task p.main p in main_info stage p'
main_step ts ok sleep p = record p { fd_open = false; next = exit_process }
main_step ts ok exit_process p = record p { code = some 0; next = gone }
main_step ts ok gone p = p

-- The steps of the others end with the process.
unfoldable pub first_step : Tasks → Next → Process → Process
unfolding print_info
first_step ts gone p = p
first_step ts next p =
    let (stage, p') = print_info ts.kernel ts.first_task p.first p in record p' { first = stage }

unfoldable pub second_step : Tasks → Next → Process → Process
unfolding print_info
second_step ts gone p = p
second_step ts next p =
    let (stage, p') = print_info ts.kernel ts.second_task p.second p in record p' { second = stage }

unfoldable pub run : Tasks → List Turn → Process → Process
unfolding main_step first_step second_step
run ts [] p = p
run ts (main_turn ok ∷ turns) p = run ts turns (main_step ts ok p.next p)
run ts (first_turn ∷ turns) p = run ts turns (first_step ts p.next p)
run ts (second_turn ∷ turns) p = run ts turns (second_step ts p.next p)
