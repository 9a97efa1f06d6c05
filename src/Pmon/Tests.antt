-- ===== src/Pmon/Tests.antt =====
-- The theorems on pmon.c at short runs.
use linux_summary.Pmon.Message.{Says, set_proc_ev_listen, set_proc_ev_listen-Says}
use linux_summary.Base.{
  length, if◌then◌else◌, arith, Bool, ℕ, List, ◌≡◌, refl, true, false, none, some, [], ◌∷◌, ◌++◌,
}
use linux_summary.Base.Int.{pos, negsuc}
use linux_summary.Pmon.{
  report, exec, exit, interrupted, failed, message, Answers, handle_proc_ev, main,
}
use linux_summary.Pmon.Events.{quiet, reports, handle_proc_ev-quiet}
use linux_summary.Pmon.Exit.{LeavesClean, main-LeavesClean}

handle_proc_ev-quiet_example :
    handle_proc_ev false
      (quiet (some (exec 7 7) ∷ none ∷ []) ++ (true, message (exit 7 7 0)) ∷ (false, failed) ∷ [])
    ≡ (some (pos 0), reports (some (exec 7 7) ∷ none ∷ []) ++ report (exit 7 7 0) ∷ [])
handle_proc_ev-quiet_example =
    handle_proc_ev-quiet (some (exec 7 7) ∷ none ∷ []) true (message (exit 7 7 0))
      ((false, failed) ∷ []) (pos 0) (report (exit 7 7 0) ∷ []) refl

abbrev good : Answers
good = record { socket = true; bind = true; send = true; send_ignore = false }

main-LeavesClean_example :
    let (code, acts, lines) = main good ((true, interrupted) ∷ []) in LeavesClean false (code, acts)
main-LeavesClean_example = main-LeavesClean good ((true, interrupted) ∷ [])

set_proc_ev_listen-Says_example :
    (m : List ℕ) × Says 4242 1 m
    × (length m ≡ 40)
    × ((send : List ℕ → Bool)
        → set_proc_ev_listen send 4242 true ≡ (if send m then pos 0 else negsuc 0))
set_proc_ev_listen-Says_example = set_proc_ev_listen-Says 4242 true (omega arith)
