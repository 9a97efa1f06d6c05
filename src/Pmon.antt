-- ===== src/Pmon.antt =====
-- The process monitor src/linux/proc_connector/pmon.c: its connection, its loop over the kernel's
-- messages, and the exit of the program.
pub mod Events
pub mod Exit
pub mod Message
mod Tests
use linux_summary.Base.{
  ℕ, Bool, true, false, ◌||◌, Option, none, some, List, [], ◌∷◌, ◌++◌, if◌then◌else◌,
}
use linux_summary.Base.Int.{ℤ, pos, negsuc}

-- A process event, with the numbers that its line prints.
pub data Event : Type 0 where
  listen_ok : Event
  fork : (parent_pid parent_tgid child_pid child_tgid : ℕ) → Event
  exec : (pid tgid : ℕ) → Event
  uid_change : (pid tgid from to : ℕ) → Event
  gid_change : (pid tgid from to : ℕ) → Event
  exit : (pid tgid code : ℕ) → Event
  unhandled : ℕ → Event

-- What `recv` answers: 0, -1 with EINTR, -1 with another error, or a message.
pub data Received : Type 0 where
  shutdown interrupted failed : Received
  message : Event → Received

-- The line that the switch prints; the kind of an event that it does not know is not printed.
pub data Line : Type 0 where
  set_listen_ok : Line
  forked : (parent_pid parent_tgid child_pid child_tgid : ℕ) → Line
  execed : (pid tgid : ℕ) → Line
  uid_changed : (pid tgid from to : ℕ) → Line
  gid_changed : (pid tgid from to : ℕ) → Line
  exited : (pid tgid code : ℕ) → Line
  unhandled_event : Line

unfoldable pub report : Event → Line
report listen_ok = set_listen_ok
report (fork p g c d) = forked p g c d
report (exec p g) = execed p g
report (uid_change p g a b) = uid_changed p g a b
report (gid_change p g a b) = gid_changed p g a b
report (exit p g c) = exited p g c
report (unhandled what) = unhandled_event

abbrev pub print : Line → Option ℤ × List Line → Option ℤ × List Line
print l (ret, lines) = (ret, l ∷ lines)

-- `while (!need_exit)`. Each answer of `recv` comes with whether SIGINT has come by the time that
-- it is dealt with. The result, `none` while the loop waits, and what is printed.
unfoldable pub handle_proc_ev : Bool → List (Bool × Received) → Option ℤ × List Line
unfolding report
handle_proc_ev need_exit [] = if need_exit then (some (pos 0), []) else (none, [])
handle_proc_ev need_exit ((sigint, r) ∷ rest) =
    let more : Option ℤ × List Line = elim r [
      | shutdown ↦ (some (pos 0), [])
      | interrupted ↦ handle_proc_ev (need_exit || sigint) rest
      | failed ↦ (some (negsuc 0), [])
      | message e ↦ print (report e) (handle_proc_ev (need_exit || sigint) rest)
    ] in
    if need_exit then (some (pos 0), []) else more

-- What the program does with its socket.
pub data Act : Type 0 where
  opened bound listens ignores closed : Act

-- Which of the calls succeed.
pub record Answers : Type 0 where
  pub socket : Bool
  pub bind : Bool
  pub send : Bool
  pub send_ignore : Bool

unfoldable pub nl_connect : Answers → Bool × List Act
nl_connect a =
    if a.socket
    then (if a.bind then (true, opened ∷ bound ∷ []) else (false, opened ∷ closed ∷ []))
    else (false, [])

-- The exit code, `none` while the loop waits; what is done with the socket; what is printed.
unfoldable pub main : Answers → List (Bool × Received) → Option ℕ × List Act × List Line
unfolding nl_connect handle_proc_ev
main a inputs =
    let (connected, acts) = nl_connect a in
    let (ret, lines) = handle_proc_ev false inputs in
    if connected
    then (if a.send
        then elim ret [
          | none ↦ (none, acts ++ listens ∷ [], lines)
          | some (pos n) ↦ (
            some n,
            acts ++ listens ∷ (if a.send_ignore then ignores ∷ [] else []) ++ closed ∷ [],
            lines,
          )
          | some (negsuc n) ↦ (some 1, acts ++ listens ∷ closed ∷ [], lines)
        ]
        else (some 1, acts ++ closed ∷ [], []))
    else (some 1, acts, [])
