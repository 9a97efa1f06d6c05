-- ===== src/Chrdev/ZtestUser/Calls.antt =====
-- What the threads of ztest_usr.c print and what the driver answers them.
use linux_summary.Base.{
  ℕ, ◌+◌, ◌≡◌, refl, Bool, true, false, List, [], ◌∷◌, ◌++◌, length, length-append, arith,
}
use linux_summary.Chrdev.Ztest.{Task, Kernel, ioctl_of, my_ioctl, my_get_current_thread_info}
use linux_summary.Chrdev.ZtestUser.{
  Stage, absent, fresh, said, asked, Next, open_file, create_first, create_second, info, sleep,
  exit_process, gone, Process, at_start, Tasks, answered, print_info, Turn, main_turn, first_turn,
  second_turn, main_info, main_step, first_step, second_step, run,
}

abbrev pub has_said : Stage → ℕ
has_said absent = 0
has_said fresh = 0
has_said said = 1
has_said asked = 1

abbrev pub has_asked : Stage → ℕ
has_asked absent = 0
has_asked fresh = 0
has_asked said = 0
has_asked asked = 1

-- No error while the file is open.
abbrev pub Quiet : (fd_open : Bool) → (errors : ℕ) → Type 0
Quiet true errors = errors ≡ 0
Quiet false errors = Unit

-- The threads that are not made yet.
abbrev pub Made : Next → (main first second : Stage) → Type 0
Made open_file main first second = (main ≡ fresh) × (first ≡ absent) × (second ≡ absent)
Made create_first main first second = (first ≡ absent) × (second ≡ absent)
Made create_second main first second = second ≡ absent
Made _ main first second = Unit

-- Each thread that is past its line has printed one, and each that is past its call has had one
-- line of the kernel or one error.
pub record IsProcess (p : Process) : Type 0 where
  pub lines : length p.out ≡ has_said p.main + has_said p.first + has_said p.second
  pub calls : length p.log + p.errors ≡ has_asked p.main + has_asked p.first + has_asked p.second
  pub quiet : Quiet p.fd_open p.errors
  pub made : Made p.next p.main p.first p.second

-- What a step of `print_info` adds.
pub record Adds (s s' : Stage) (p p' : Process) : Type 0 where
  pub said_lines : length p'.out + has_said s ≡ length p.out + has_said s'
  pub asked_calls : length p'.log + p'.errors + has_asked s ≡ length p.log + p.errors + has_asked s'
  pub still_quiet : Quiet p'.fd_open p'.errors
  pub same_main : p'.main ≡ p.main
  pub same_first : p'.first ≡ p.first
  pub same_second : p'.second ≡ p.second
  pub same_next : p'.next ≡ p.next
  pub still_absent : s ≡ absent → s' ≡ absent

ioctl_line :
    (k : Kernel) (p : Process)
    → answered (my_ioctl k (ioctl_of 2) 0) p
      ≡ record p { log = p.log ++ my_get_current_thread_info k ∷ [] }
unfolding my_ioctl
ioctl_line k p = refl

absurd_stage : said ≡ absent → asked ≡ absent
absurd_stage h = cc

print_info-Adds :
    (k : Kernel) (t : Task) (s : Stage) (p : Process)
    → Quiet p.fd_open p.errors
    → let (s', p') = print_info k t s p in Adds s s' p p'
unfolding print_info
print_info-Adds k t absent p q = ground arith
print_info-Adds k t fresh p q = ground (arith, length-append p.out ((t.tgid, t.pid) ∷ []))
print_info-Adds k t said p q = go p.fd_open refl q
  where
    go :
        (o : Bool)
        → p.fd_open ≡ o
        → Quiet o p.errors
        → let (s', p') = print_info k t said p in Adds said s' p p'
    go true e q = rw e (record {
      said_lines = refl;
      asked_calls =
          omega (
            arith,
            length-append p.log (my_get_current_thread_info (record k { current = t }) ∷ []),
          );
      still_quiet = q;
      same_main = refl;
      same_first = refl;
      same_second = refl;
      same_next = refl;
      still_absent = λ h. absurd_stage h;
    })
    go false e q = rw e (record {
      said_lines = refl;
      asked_calls = omega arith;
      still_quiet = tt;
      same_main = refl;
      same_first = refl;
      same_second = refl;
      same_next = refl;
      still_absent = λ h. absurd_stage h;
    })
print_info-Adds k t asked p q = ground arith

main_info-IsProcess :
    (s s' : Stage) {p p' : Process}
    → Adds s s' p p'
    → p.main ≡ s
    → p.next ≡ info
    → IsProcess p
    → IsProcess (main_info s' p')
main_info-IsProcess s absent {p} {p'} a e n v = ground arith
main_info-IsProcess s fresh {p} {p'} a e n v = ground arith
main_info-IsProcess s said {p} {p'} a e n v = ground arith
main_info-IsProcess s asked {p} {p'} a e n v = ground arith

first-IsProcess :
    (n : Next) (s' : Stage) {p p' : Process}
    → Adds p.first s' p p'
    → p.next ≡ n
    → IsProcess p
    → IsProcess (record p' { first = s' })
first-IsProcess open_file s' {p} {p'} a e v = ground (arith, a.still_absent)
first-IsProcess create_first s' {p} {p'} a e v = ground (arith, a.still_absent)
first-IsProcess n s' {p} {p'} a e v = ground arith

second-IsProcess :
    (n : Next) (s' : Stage) {p p' : Process}
    → Adds p.second s' p p'
    → p.next ≡ n
    → IsProcess p
    → IsProcess (record p' { second = s' })
second-IsProcess open_file s' {p} {p'} a e v = ground (arith, a.still_absent)
second-IsProcess create_first s' {p} {p'} a e v = ground (arith, a.still_absent)
second-IsProcess create_second s' {p} {p'} a e v = ground (arith, a.still_absent)
second-IsProcess n s' {p} {p'} a e v = ground arith

main_step-IsProcess :
    (ts : Tasks) (ok : Bool) (n : Next) (p : Process)
    → p.next ≡ n
    → IsProcess p
    → IsProcess (main_step ts ok n p)
unfolding main_step
main_step-IsProcess ts ok open_file p e v = ground arith
main_step-IsProcess ts ok create_first p e v = ground arith
main_step-IsProcess ts ok create_second p e v = ground arith
main_step-IsProcess ts ok info p e v =
    let (s', p') = print_info ts.kernel ts.main_task p.main p in
    main_info-IsProcess p.main s' (print_info-Adds ts.kernel ts.main_task p.main p v.quiet) refl e v
main_step-IsProcess ts ok sleep p e v = ground arith
main_step-IsProcess ts ok exit_process p e v = ground arith
main_step-IsProcess ts ok gone p e v = v

first_step-IsProcess :
    (ts : Tasks) (n : Next) (p : Process) → p.next ≡ n → IsProcess p → IsProcess (first_step ts n p)
unfolding first_step
first_step-IsProcess ts gone p e v = v
first_step-IsProcess ts n p e v =
    let (s', p') = print_info ts.kernel ts.first_task p.first p in
    first-IsProcess n s' (print_info-Adds ts.kernel ts.first_task p.first p v.quiet) e v

second_step-IsProcess :
    (ts : Tasks) (n : Next) (p : Process)
    → p.next ≡ n
    → IsProcess p
    → IsProcess (second_step ts n p)
unfolding second_step
second_step-IsProcess ts gone p e v = v
second_step-IsProcess ts n p e v =
    let (s', p') = print_info ts.kernel ts.second_task p.second p in
    second-IsProcess n s' (print_info-Adds ts.kernel ts.second_task p.second p v.quiet) e v

run-keeps :
    (ts : Tasks) (turns : List Turn) (p : Process) → IsProcess p → IsProcess (run ts turns p)
unfolding run
run-keeps ts [] p v = v
run-keeps ts (main_turn ok ∷ turns) p v =
    run-keeps ts turns (main_step ts ok p.next p) (main_step-IsProcess ts ok p.next p refl v)
run-keeps ts (first_turn ∷ turns) p v =
    run-keeps ts turns (first_step ts p.next p) (first_step-IsProcess ts p.next p refl v)
run-keeps ts (second_turn ∷ turns) p v =
    run-keeps ts turns (second_step ts p.next p) (second_step-IsProcess ts p.next p refl v)

-- However the three threads have their turns: each has printed its pid and tid once it is past
-- that, and for each call of the driver there is one line of the kernel or one error; there is no
-- error while the file is open.
pub run-IsProcess : (ts : Tasks) (turns : List Turn) → IsProcess (run ts turns at_start)
run-IsProcess ts turns =
    run-keeps ts turns at_start
      (record { lines = refl; calls = refl; quiet = tt; made = (refl, refl, refl) })
