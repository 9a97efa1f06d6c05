-- ===== src/Tcp/Totals.antt =====
-- tcp_server.c: what it reports of a connection, against what the peer has sent.

use mathlib.Core.Path.{subst}
use linux_summary.Base.{
  ℕ, zero, suc, ◌+◌, ◌≡◌, ◌≢◌, refl, ◌∙◌, Bool, true, false, Bool-cases, inl, inr, Option, none,
  some, List, [], ◌∷◌, ◌++◌, ◌==◌, ==_iff, if◌then◌else◌, arith,
}
use linux_summary.Base.Int.{ℤ, pos, negsuc, pos_part}
use linux_summary.Tcp.Server.{
  Line, accepted, closing, received, Server, Run, running, exited, Event, do_use_fd, accept_from,
  use_fd, handle, handle_all,
}
use linux_summary.Tcp.Sockets.{IsServer, Holds}
use linux_summary.Tcp.Streams.{after, IsStream, Holds-after, after-listen_sock}

-- The bytes that are reported for a connection.
abbrev pub reported : ℕ → List Line → ℕ
reported fd [] = 0
reported fd (accepted c ∷ lines) = reported fd lines
reported fd (closing c ∷ lines) = reported fd lines
reported fd (received c n ∷ lines) = (if c == fd then pos_part n else 0) + reported fd lines

reported-append :
    (fd : ℕ) (xs ys : List Line) → reported fd (xs ++ ys) ≡ reported fd xs + reported fd ys
reported-append fd [] ys = omega arith
reported-append fd (accepted c ∷ xs) ys = reported-append fd xs ys
reported-append fd (closing c ∷ xs) ys = reported-append fd xs ys
reported-append fd (received c n ∷ xs) ys = omega (arith, reported-append fd xs ys)

-- What an event reports for a connection.
abbrev reports : ℕ → Event → ℕ
reports fd e = if e.fd == fd then pos_part e.recv else 0

handle-reports :
    (fd : ℕ) (e : Event) (s : Server)
    → fd ≢ s.listen_sock
    → Holds (λ s'. reported fd s'.out ≡ reported fd s.out + reports fd e) (handle e s)
unfolding handle accept_from use_fd do_use_fd
handle-reports fd e s other = go (e.fd == s.listen_sock) refl e.accept refl e.adds refl e.recv refl
  where
    go :
        (b : Bool)
        → (e.fd == s.listen_sock) ≡ b
        → (a : Option ℕ) → e.accept ≡ a
        → (i : Bool) → e.adds ≡ i
        → (n : ℤ) → e.recv ≡ n
        → Holds (λ s'. reported fd s'.out ≡ reported fd s.out + reports fd e) (handle e s)
    go true p none q i r n t = rw (handle, p, accept_from, q) refl
    go true p (some c) q true r n t =
        let apart : (e.fd == fd) ≡ false = ground (arith, other, p) in
        rw (handle, p, accept_from, q, r, apart)
          (omega (arith, reported-append fd s.out (accepted c ∷ [])))
    go true p (some c) q false r n t = rw (handle, p, accept_from, q, r) refl
    go false p a q i r (pos zero) t =
        rw (handle, p, t)
          (ground (
            arith,
            reported-append fd (s.out ++ []) (closing e.fd ∷ []),
            reported-append fd s.out [],
          ))
    go false p a q i r (pos (suc n)) t =
        rw (handle, p, t)
          (ground (arith, reported-append fd s.out (received e.fd (pos (suc n)) ∷ [])))
    go false p a q i r (negsuc n) t =
        rw (handle, p, t) (ground (arith, reported-append fd s.out (received e.fd (negsuc n) ∷ [])))

Holds-map : {P Q : Server → Type 0} (r : Run) → Holds P r → ((s : Server) → P s → Q s) → Holds Q r
Holds-map (running s) h f = f s h
Holds-map (exited s) h f = refl

-- An event reports what it takes from the stream.
reports-left :
    {events : ℕ → Event} {s : Server} {fd : ℕ} {left : ℕ → ℕ}
    → IsStream events s fd left
    → (k : ℕ) → reports fd (events k) + left (suc k) ≡ left k
reports-left {events} {s} {fd} {left} stream k = elim (Bool-cases ((events k).fd == fd)) [
  | inl same ↦
      let here = (==_iff (events k).fd fd).0 same in
      rw (same, stream.reads k here, stream.taken k here) (omega arith)
  | inr differ ↦ rw (differ, stream.kept k (ground (arith, differ))) (omega arith)
]

-- In every reached state: what the server has reported of a connection, and what is still to be
-- read of it, are together what its peer has sent, whatever happens on the other sockets in
-- between. (The peer has sent and closed, and the output begins without a line on it.) So where
-- nothing is left all bytes have been reported, and none twice.
pub stream-total :
    {events : ℕ → Event} {s : Server} {fd : ℕ} {left : ℕ → ℕ}
    → IsServer s
    → fd ≢ s.listen_sock
    → IsStream events s fd left
    → reported fd s.out ≡ 0
    → (k : ℕ) → Holds (λ s'. reported fd s'.out + left k ≡ left 0) (after events s k)
unfolding handle_all
stream-total is other stream none_yet zero = omega (arith, none_yet)
stream-total {events} {s} {fd} {left} is other stream none_yet (suc k) =
    Holds-after (λ s'. reported fd s'.out + left k ≡ left 0)
      (λ s'. reported fd s'.out + left (suc k) ≡ left 0) events s k
      (stream-total is other stream none_yet k)
      (λ s' ran total.
        let listens =
          subst (Holds (λ s'. s'.listen_sock ≡ s.listen_sock)) ran
            (after-listen_sock is other stream k) in
        Holds-map (handle (events k) s')
          (handle-reports fd (events k) s' (λ e. other (e ∙ listens)))
          (λ t more. omega (arith, more, total, reports-left stream k)))
