-- ===== src/Pmon/Events.antt =====
-- What the loop of pmon.c prints, and when it ends.
use linux_summary.Base.{
  ◌≡◌, ap, Bool, true, false, Option, none, some, List, [], ◌∷◌, ◌++◌, arith, if◌then◌else◌,
}
use linux_summary.Base.Int.{ℤ, pos, negsuc}
use linux_summary.Pmon.{
  Event, Received, shutdown, interrupted, failed, message, Line, report, print, handle_proc_ev,
}

-- Messages and interrupted calls, with no SIGINT.
abbrev pub quiet : List (Option Event) → List (Bool × Received)
quiet [] = []
quiet (none ∷ es) = (false, interrupted) ∷ quiet es
quiet (some e ∷ es) = (false, message e) ∷ quiet es

abbrev pub reports : List (Option Event) → List Line
reports [] = []
reports (none ∷ es) = reports es
reports (some e ∷ es) = report e ∷ reports es

-- How the loop ends on an answer, if it does: `sigint` is whether SIGINT came with it.
abbrev pub ending : Bool → Received → Option (ℤ × List Line)
ending sigint shutdown = some (pos 0, [])
ending sigint failed = some (negsuc 0, [])
ending sigint interrupted = if sigint then some (pos 0, []) else none
ending sigint (message e) = if sigint then some (pos 0, report e ∷ []) else none

handle_last :
    (sigint : Bool) (r : Received) (rest : List (Bool × Received)) {code : ℤ} {last : List Line}
    → ending sigint r ≡ some (code, last)
    → handle_proc_ev false ((sigint, r) ∷ rest) ≡ (some code, last)
unfolding handle_proc_ev
handle_last sigint shutdown rest e = ground arith
handle_last sigint failed rest e = ground arith
handle_last true interrupted [] e = ground arith
handle_last true interrupted (x ∷ rest) e = ground arith
handle_last false interrupted rest e = cc
handle_last true (message m) [] e = ground arith
handle_last true (message m) (x ∷ rest) e = ground arith
handle_last false (message m) rest e = cc

-- After any messages and interrupted calls, the first answer that ends the loop ends it: with 0 for
-- a shutdown and for SIGINT, with -1 for an error. A line is printed for each message up to there,
-- in their order, that which comes with SIGINT included, and nothing behind it is read.
pub handle_proc_ev-quiet :
    (es : List (Option Event)) (sigint : Bool) (r : Received) (rest : List (Bool × Received))
    (code : ℤ) (last : List Line)
    → ending sigint r ≡ some (code, last)
    → handle_proc_ev false (quiet es ++ (sigint, r) ∷ rest) ≡ (some code, reports es ++ last)
unfolding handle_proc_ev
handle_proc_ev-quiet [] sigint r rest code last e = handle_last sigint r rest e
handle_proc_ev-quiet (none ∷ es) sigint r rest code last e =
    handle_proc_ev-quiet es sigint r rest code last e
handle_proc_ev-quiet (some m ∷ es) sigint r rest code last e =
    ap (print (report m)) (handle_proc_ev-quiet es sigint r rest code last e)
