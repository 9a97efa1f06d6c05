-- ===== src/Tcp/Server.antt =====
-- src/linux/socket/tcp/tcp_server.c: the server over `epoll`.
use linux_summary.Base.{
  ℕ, zero, suc, Bool, Option, none, some, List, [], ◌∷◌, ◌++◌, ◌==◌, if◌then◌else◌,
}
use linux_summary.Base.Int.{ℤ, pos, negsuc}
use linux_summary.Tcp.{remove}

abbrev pub max_len : ℕ
max_len = 10240

-- A line of the output.
pub data Line : Type 0 where
  accepted closing : (fd : ℕ) → Line
  received : (fd : ℕ) → ℤ → Line

-- The sockets that are open, those that `epoll` watches, and the output.
pub record Server : Type 0 where
  pub epollfd : ℕ
  pub listen_sock : ℕ
  pub opened : List ℕ
  pub registered : List ℕ
  pub out : List Line

-- The server goes on, or has called `exit(EXIT_FAILURE)`.
pub data Run : Type 0 where
  running exited : Server → Run

-- An element of `events`, with the results of the calls that it may lead to: those of `accept`
-- and of the `epoll_ctl` behind it, and that of `recv`.
pub record Event : Type 0 where
  pub fd : ℕ
  pub accept : Option ℕ
  pub adds : Bool
  pub recv : ℤ

-- `do_use_fd`: its result and what it prints.
unfoldable pub do_use_fd : (fd : ℕ) (n : ℤ) → ℤ × List Line
do_use_fd fd (pos zero) = (pos 0, [])
do_use_fd fd (pos (suc n)) = (pos (suc n), received fd (pos (suc n)) ∷ [])
do_use_fd fd (negsuc n) = (negsuc n, received fd (negsuc n) ∷ [])

-- The branch of the listening socket.
unfoldable pub accept_from : (accept : Option ℕ) (adds : Bool) → Server → Run
accept_from none adds s = exited s
accept_from (some conn_sock) adds s =
    let s' : Server = record s {
      opened = conn_sock ∷ s.opened;
      out = s.out ++ accepted conn_sock ∷ [];
    } in
    if adds then running (record s' { registered = conn_sock ∷ s.registered }) else exited s'

-- `EPOLL_CTL_DEL` and `close`, each of which ends the watch.
abbrev pub close_fd : ℕ → Server → Server
close_fd fd s = record s {
  opened = remove fd s.opened;
  registered = remove fd s.registered;
  out = s.out ++ closing fd ∷ [];
}

-- The branch of a connection, with the result of `do_use_fd`.
unfoldable pub use_fd : ℕ → ℤ × List Line → Server → Server
use_fd fd (pos zero, lines) s = close_fd fd (record s { out = s.out ++ lines })
use_fd fd (pos (suc n), lines) s = record s { out = s.out ++ lines }
use_fd fd (negsuc n, lines) s = record s { out = s.out ++ lines }

-- The body of the loop over `events`.
unfoldable pub handle : Event → Server → Run
unfolding accept_from use_fd do_use_fd
handle e s =
    if e.fd == s.listen_sock
    then accept_from e.accept e.adds s
    else running (use_fd e.fd (do_use_fd e.fd e.recv) s)

-- The loop over `events`.
unfoldable pub handle_all : List Event → Server → Run
unfolding handle
handle_all [] s = running s
handle_all (e ∷ es) s = elim (handle e s) [ running s' ↦ handle_all es s' | exited s' ↦ exited s' ]

-- `for (;;)` over the results of `epoll_wait` to come, `none` for -1.
unfoldable pub loop : List (Option (List Event)) → Server → Run
unfolding handle_all
loop [] s = running s
loop (none ∷ waits) s = exited s
loop (some es ∷ waits) s = elim (handle_all es s) [
  | running s' ↦ loop waits s'
  | exited s' ↦ exited s'
]

-- The results of the calls before the loop.
pub record Answers : Type 0 where
  pub epoll_create1 : Option ℕ
  pub socket : Option ℕ
  pub bind : Bool
  pub listen : Bool
  pub epoll_ctl : Bool

-- The calls before the loop: the server that listens, or `none` for `exit(EXIT_FAILURE)`.
unfoldable pub set_up : Answers → Option Server
set_up a = elim a.epoll_create1 [
  | none ↦ none
  | some epollfd ↦ elim a.socket [
    | none ↦ none
    | some listen_sock ↦
        let s : Server = record {
          epollfd = epollfd;
          listen_sock = listen_sock;
          opened = listen_sock ∷ epollfd ∷ [];
          registered = listen_sock ∷ [];
          out = [];
        } in
        if a.bind then (if a.listen then (if a.epoll_ctl then some s else none) else none) else none
  ]
]

-- How the program stands: the loop, or the exit before it.
unfoldable pub main : Answers → List (Option (List Event)) → Option Run
unfolding set_up loop
main a waits = elim (set_up a) [ none ↦ none | some s ↦ some (loop waits s) ]
