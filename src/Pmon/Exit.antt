-- ===== src/Pmon/Exit.antt =====
-- How the program pmon.c leaves its socket.
use linux_summary.Base.{
  ℕ, ◌≡◌, ◌⊎◌, Bool, true, false, not, ◌||◌, Option, none, some, List, [], ◌∷◌, arith,
}
use linux_summary.Base.Int.{pos, negsuc}
use linux_summary.Pmon.{
  shutdown, interrupted, failed, message, handle_proc_ev, Received, Act, opened, bound, listens,
  ignores, closed, Answers, nl_connect, main,
}

-- The socket and the subscription behind a sequence of acts.
pub record Socket : Type 0 where
  pub is_open : Bool
  pub subscribed : Bool

abbrev pub behind : List Act → Socket → Socket
behind [] s = s
behind (opened ∷ acts) s = behind acts (record s { is_open = true })
behind (bound ∷ acts) s = behind acts s
behind (listens ∷ acts) s = behind acts (record s { subscribed = true })
behind (ignores ∷ acts) s = behind acts (record s { subscribed = false })
behind (closed ∷ acts) s = behind acts (record s { is_open = false })

abbrev pub no_socket : Socket
no_socket = record { is_open = false; subscribed = false }

-- What the program leaves, by whether its second message would be sent: an exit leaves the socket
-- closed, and with the exit code 0 the subscription goes on exactly if that message was not sent.
abbrev pub LeavesClean : Bool → Option ℕ × List Act → Type 0
LeavesClean send_ignore (none, acts) =
    behind acts no_socket ≡ record { is_open = true; subscribed = true }
LeavesClean send_ignore (some code, acts) =
    ((behind acts no_socket).is_open ≡ false)
    × ((code ≡ 0) ⊎ (code ≡ 1))
    × (code ≡ 0 → (behind acts no_socket).subscribed ≡ not send_ignore)

-- The loop goes on, or ends with 0 or -1.
handle_proc_ev-code :
    (need_exit : Bool) (inputs : List (Bool × Received))
    → let ret = (handle_proc_ev need_exit inputs).0 in
      (ret ≡ none) ⊎ (ret ≡ some (pos 0)) ⊎ (ret ≡ some (negsuc 0))
unfolding handle_proc_ev
handle_proc_ev-code need_exit [] = ground arith
handle_proc_ev-code need_exit ((sigint, shutdown) ∷ rest) = ground arith
handle_proc_ev-code need_exit ((sigint, interrupted) ∷ rest) =
    ground (arith, handle_proc_ev-code (need_exit || sigint) rest)
handle_proc_ev-code need_exit ((sigint, failed) ∷ rest) = ground arith
handle_proc_ev-code need_exit ((sigint, message m) ∷ rest) =
    ground (arith, handle_proc_ev-code (need_exit || sigint) rest)

-- Whichever calls succeed and whatever comes in: when the program exits, its socket is closed and
-- the exit code is 0 or 1. With 0 the subscription has been ended if the message that ends it was
-- sent; a failure to send it is not reported, and the subscription goes on. While the program
-- does not exit, it listens on an open socket.
pub main-LeavesClean :
    (a : Answers) (inputs : List (Bool × Received))
    → let (code, acts, lines) = main a inputs in LeavesClean a.send_ignore (code, acts)
unfolding main nl_connect
main-LeavesClean a inputs = ground (arith, handle_proc_ev-code false inputs)
