-- ===== src/Tcp/Sockets.antt =====
-- tcp_server.c: the sockets that are open against those that `epoll` watches.

use mathlib.Core.Path.{subst}
use linux_summary.Base.{
  ℕ, zero, suc, ◌≡◌, ◌≢◌, refl, ap, ◌∙◌, Bool, true, false, Bool-cases, inl, inr, Option, none,
  some, List, [], ◌∷◌, ◌++◌, map, All, ◌==◌, arith,
}
use linux_summary.Base.Int.{ℤ, pos, negsuc}
use linux_summary.Tcp.{mem, distinct, remove, mem-remove_other, distinct-remove, remove-append}
use linux_summary.Tcp.Server.{
  Server, Run, running, exited, Event, do_use_fd, accept_from, close_fd, use_fd, handle, handle_all,
  Answers, set_up,
}

-- The watched sockets and `epoll`'s own descriptor are what is open, each once, and the listening
-- socket is watched.
pub record IsServer (s : Server) : Type 0 where
  pub opens : s.opened ≡ s.registered ++ s.epollfd ∷ []
  pub once : distinct s.opened ≡ true
  pub listens : mem s.listen_sock s.registered ≡ true

-- What the kernel says of a batch of events: watched sockets, each once.
pub record IsBatch (es : List Event) (s : Server) : Type 0 where
  pub once : distinct (map (λ e. e.fd) es) ≡ true
  pub watched : All (λ e. mem e.fd s.registered ≡ true) es

-- `accept` gives a descriptor that is not open at its time.
abbrev pub Fresh : List Event → Server → Type 0
Fresh [] s = s ≡ s
Fresh (e ∷ es) s =
    ((conn_sock : ℕ) → e.accept ≡ some conn_sock → mem conn_sock s.opened ≡ false)
    × ((s' : Server) → handle e s ≡ running s' → Fresh es s')

-- Steps of the server: rounds of the loop that do not exit.
pub data Reaches (s : Server) : Server → Type 0 where
  start : Reaches s s
  wakes :
      {s' s'' : Server} (es : List Event)
      → Reaches s s'
      → IsBatch es s'
      → Fresh es s'
      → handle_all es s' ≡ running s''
      → Reaches s s''

-- What holds of the server if it goes on.
abbrev pub Holds : (Server → Type 0) → Run → Type 0
Holds P (running s) = P s
Holds P (exited s) = s ≡ s

accept_from-IsServer :
    (accept : Option ℕ) (adds : Bool) (s : Server)
    → IsServer s
    → ((conn_sock : ℕ) → accept ≡ some conn_sock → mem conn_sock s.opened ≡ false)
    → Holds IsServer (accept_from accept adds s)
unfolding accept_from
accept_from-IsServer none adds s is fresh = refl
accept_from-IsServer (some c) false s is fresh = refl
accept_from-IsServer (some c) true s is fresh = record {
  opens = ap (λ l. c ∷ l) is.opens;
  once = rw (fresh c refl, is.once) refl;
  listens = ground (arith, is.listens);
}

close_fd-IsServer :
    (fd : ℕ) (s : Server)
    → IsServer s
    → mem fd s.registered ≡ true
    → fd ≢ s.listen_sock
    → IsServer (close_fd fd s)
close_fd-IsServer fd s is watched other = record {
  opens = ap (remove fd) is.opens ∙ remove-append fd s.registered (s.epollfd ∷ []) watched;
  once = distinct-remove fd s.opened is.once;
  listens = mem-remove_other s.listen_sock fd s.registered other ∙ is.listens;
}

use_fd-IsServer :
    (fd : ℕ) (n : ℤ) (s : Server)
    → IsServer s
    → mem fd s.registered ≡ true
    → fd ≢ s.listen_sock
    → IsServer (use_fd fd (do_use_fd fd n) s)
unfolding use_fd do_use_fd
use_fd-IsServer fd (pos zero) s is watched other =
    close_fd-IsServer fd (record s { out = s.out ++ [] })
      (record { opens = is.opens; once = is.once; listens = is.listens }) watched other
use_fd-IsServer fd (pos (suc n)) s is watched other = record {
  opens = is.opens;
  once = is.once;
  listens = is.listens;
}
use_fd-IsServer fd (negsuc n) s is watched other = record {
  opens = is.opens;
  once = is.once;
  listens = is.listens;
}

pub handle-IsServer :
    (e : Event) (s : Server)
    → IsServer s
    → mem e.fd s.registered ≡ true
    → ((conn_sock : ℕ) → e.accept ≡ some conn_sock → mem conn_sock s.opened ≡ false)
    → Holds IsServer (handle e s)
unfolding handle
handle-IsServer e s is watched fresh = elim (Bool-cases (e.fd == s.listen_sock)) [
  | inl same ↦ rw (handle, same) (accept_from-IsServer e.accept e.adds s is fresh)
  | inr other ↦ rw (handle, other) (use_fd-IsServer e.fd e.recv s is watched (ground arith))
]

-- The events behind one of a batch are still watched.
handle-watched :
    (e : Event) (fd : ℕ) (s : Server)
    → e.fd ≢ fd
    → mem fd s.registered ≡ true
    → Holds (λ s'. mem fd s'.registered ≡ true) (handle e s)
unfolding handle accept_from use_fd do_use_fd
handle-watched e fd s other watched =
    go (e.fd == s.listen_sock) refl e.accept refl e.adds refl e.recv refl
  where
    go :
        (b : Bool)
        → (e.fd == s.listen_sock) ≡ b
        → (a : Option ℕ) → e.accept ≡ a
        → (i : Bool) → e.adds ≡ i
        → (n : ℤ) → e.recv ≡ n
        → Holds (λ s'. mem fd s'.registered ≡ true) (handle e s)
    go true p none q i r n t = rw (handle, p, accept_from, q) refl
    go true p (some c) q true r n t = rw (handle, p, accept_from, q, r) (ground (arith, watched))
    go true p (some c) q false r n t = rw (handle, p, accept_from, q, r) refl
    go false p a q i r (pos zero) t =
        rw (handle, p, t) (mem-remove_other fd e.fd s.registered other ∙ watched)
    go false p a q i r (pos (suc n)) t = rw (handle, p, t) watched
    go false p a q i r (negsuc n) t = rw (handle, p, t) watched

all_watched :
    (e : Event) (es : List Event) (s : Server) (s' : Server)
    → mem e.fd (map (λ e. e.fd) es) ≡ false
    → All (λ e. mem e.fd s.registered ≡ true) es
    → handle e s ≡ running s'
    → All (λ e. mem e.fd s'.registered ≡ true) es
all_watched e [] s s' h watched ran = watched
all_watched e (f ∷ es) s s' h watched ran = (
  subst (Holds (λ t. mem f.fd t.registered ≡ true)) ran
      (handle-watched e f.fd s (ground arith) watched.0),
  all_watched e es s s' (ground arith) watched.1 ran,
)

handle_all-IsServer :
    (es : List Event) (s : Server)
    → IsServer s
    → IsBatch es s
    → Fresh es s
    → Holds IsServer (handle_all es s)
unfolding handle_all
handle_all-IsServer [] s is batch fresh = is
handle_all-IsServer (e ∷ es) s is batch fresh =
    go
      (λ s' ran.
        handle_all-IsServer es s'
          (subst (Holds IsServer) ran (handle-IsServer e s is batch.watched.0 fresh.0))
          (record {
            once = ground (arith, batch.once);
            watched = all_watched e es s s' (ground (arith, batch.once)) batch.watched.1 ran;
          })
          (fresh.1 s' ran))
      (handle e s) refl
  where
    go :
        ((s' : Server) → handle e s ≡ running s' → Holds IsServer (handle_all es s'))
        → (r : Run) → handle e s ≡ r
        → Holds IsServer (handle_all (e ∷ es) s)
    go rest (exited s') ran = rw (handle_all, ran) refl
    go rest (running s') ran = rw (handle_all, ran) (rest s' ran)

-- The calls before the loop succeed.
abbrev pub succeeds : (epollfd listen_sock : ℕ) → Answers
succeeds epollfd listen_sock = record {
  epoll_create1 = some epollfd;
  socket = some listen_sock;
  bind = true;
  listen = true;
  epoll_ctl = true;
}

abbrev OfSome : Option Server → Type 0
OfSome none = Bool
OfSome (some s) = IsServer s

set_up-IsServer :
    (epollfd listen_sock : ℕ) {s : Server}
    → epollfd ≢ listen_sock
    → set_up (succeeds epollfd listen_sock) ≡ some s
    → IsServer s
unfolding set_up
set_up-IsServer epollfd listen_sock other h =
    subst OfSome h (record { opens = refl; once = ground arith; listens = ground arith })

-- From the calls before the loop on, in each round of the loop: `epoll` watches every socket that
-- is open, the listening one included, and nothing is open but these and `epoll`'s descriptor;
-- none is there twice. (The kernel gives descriptors that are not open, and reports watched
-- sockets, each once in a batch.)
pub reached-IsServer :
    (epollfd listen_sock : ℕ) {s s' : Server}
    → epollfd ≢ listen_sock
    → set_up (succeeds epollfd listen_sock) ≡ some s
    → Reaches s s'
    → IsServer s'
reached-IsServer e l other h start = set_up-IsServer e l other h
reached-IsServer e l other h (wakes {s'} es before batch fresh ran) =
    subst (Holds IsServer) ran
      (handle_all-IsServer es s' (reached-IsServer e l other h before) batch fresh)
