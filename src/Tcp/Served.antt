-- ===== src/Tcp/Served.antt =====
-- tcp_server.c and tcp_client.c: a connection is served to its end.
use mathlib.Core.Path.{subst}
use linux_summary.Base.{
  ℕ, zero, suc, ◌+◌, ◌-◌, min, ◌≡◌, ◌≢◌, refl, ap, ◌∙◌, Bool, true, false, inl, inr, ◌⊎◌,
  ℕ_discrete, Option, none, some, List, [], ◌∷◌, ◌==◌, length, length-replicate, arith,
}
use linux_summary.Base.Int.{ℤ, pos, negsuc}
use linux_summary.Tcp.{mem, mem-remove_other}
use linux_summary.Tcp.Server.{
  max_len, Server, Run, running, exited, Event, do_use_fd, accept_from, use_fd, handle, handle_all,
}
use linux_summary.Tcp.Sockets.{IsServer, Holds}
use linux_summary.Tcp.Streams.{
  after, watched, IsStream, Holds-after, after-listen_sock, stream-closes,
}
use linux_summary.Tcp.Totals.{reported, stream-total}
use linux_summary.Tcp.Client
use linux_summary.Tcp.Client.{Act, connects, sends, closes, server_address, main-sends}

not_ended : (r : ℤ) → (n : ℕ) × (r ≡ pos (suc n)) → r ≡ pos 0 → ⊥
not_ended r (n, h) t = cc

-- A connection stays watched in an event that is not its end.
handle-watched :
    (fd : ℕ) (e : Event) (s : Server)
    → fd ≢ s.listen_sock
    → mem fd s.registered ≡ true
    → (e.fd ≡ fd → (n : ℕ) × (e.recv ≡ pos (suc n)))
    → Holds (λ s'. mem fd s'.registered ≡ true) (handle e s)
unfolding handle accept_from use_fd do_use_fd
handle-watched fd e s other is_watched more =
    go (e.fd == s.listen_sock) refl e.accept refl e.adds refl e.recv refl
  where
    go :
        (b : Bool)
        → (e.fd == s.listen_sock) ≡ b
        → (a : Option ℕ) → e.accept ≡ a
        → (i : Bool) → e.adds ≡ i
        → (n : ℤ) → e.recv ≡ n
        → Holds (λ s'. mem fd s'.registered ≡ true) (handle e s)
    go true p none q i r n t = rw (handle, p, accept_from, q) refl
    go true p (some c) q true r n t = rw (handle, p, accept_from, q, r) (ground (arith, is_watched))
    go true p (some c) q false r n t = rw (handle, p, accept_from, q, r) refl
    go false p a q i r (pos zero) t =
        let apart : e.fd ≢ fd = λ same. not_ended e.recv (more same) t in
        rw (handle, p, t) (mem-remove_other fd e.fd s.registered apart ∙ is_watched)
    go false p a q i r (pos (suc n)) t = rw (handle, p, t) is_watched
    go false p a q i r (negsuc n) t = rw (handle, p, t) is_watched

Holds-all : {P : Server → Type 0} (r : Run) → ((s : Server) → P s) → Holds P r
Holds-all (running s) h = h s
Holds-all (exited s) h = refl

Holds-both :
    {P Q R : Server → Type 0} (r : Run)
    → Holds P r
    → Holds Q r
    → ((s : Server) → r ≡ running s → P s → Q s → R s)
    → Holds R r
Holds-both (running s) p q f = f s refl p q
Holds-both (exited s) p q f = refl

module _ {events : ℕ → Event} {s : Server} {fd : ℕ} {left : ℕ → ℕ} (is : IsServer s)
    (other : fd ≢ s.listen_sock) (stream : IsStream events s fd left) where
  stays_empty : (k : ℕ) → left k ≡ 0 → left (suc k) ≡ 0
  stays_empty k empty = elim (ℕ_discrete (events k).fd fd) [
    | yes same ↦ omega (arith, stream.taken k same)
    | no differ ↦ omega (arith, stream.kept k differ)
  ]

  some_read : (k : ℕ) → left k ≢ 0 → (events k).fd ≡ fd → (n : ℕ) × ((events k).recv ≡ pos (suc n))
  some_read k more same =
      (min max_len (left k) - 1, stream.reads k same ∙ ap (λ n. pos n) (ground (arith, more)))

  -- While bytes wait on it the connection is watched.
  waits_watched :
      mem fd s.registered ≡ true
      → (k : ℕ) → Holds (λ s'. (mem fd s'.registered ≡ true) ⊎ (left k ≡ 0)) (after events s k)
  unfolding handle_all
  waits_watched first zero = inl first
  waits_watched first (suc k) =
      Holds-after (λ s'. (mem fd s'.registered ≡ true) ⊎ (left k ≡ 0))
        (λ s'. (mem fd s'.registered ≡ true) ⊎ (left (suc k) ≡ 0)) events s k
        (waits_watched first k) (λ s' ran before. step s' ran before)
    where
      step :
          (s' : Server)
          → after events s k ≡ running s'
          → (mem fd s'.registered ≡ true) ⊎ (left k ≡ 0)
          → Holds (λ t. (mem fd t.registered ≡ true) ⊎ (left (suc k) ≡ 0)) (handle (events k) s')
      step s' ran (inr empty) = Holds-all (handle (events k) s') (λ t. inr (stays_empty k empty))
      step s' ran (inl here) = elim (ℕ_discrete (left k) 0) [
        | yes empty ↦ Holds-all (handle (events k) s') (λ t. inr (stays_empty k empty))
        | no more ↦
            let listens =
              subst (Holds (λ t. t.listen_sock ≡ s.listen_sock)) ran
                (after-listen_sock is other stream k) in
            let stays =
              handle-watched fd (events k) s' (λ e. other (e ∙ listens)) here (some_read k more) in
            Holds-both (handle (events k) s') stays stays (λ t r p q. inl p)
      ]

-- However the events of other sockets come in between: a connection that is watched, and whose
-- peer has sent and closed, is closed in the end, if the kernel comes back to a watched socket;
-- and if the server goes on then, it has reported as many bytes of it as the peer has sent. (The
-- output begins without a line on it.)
pub stream-served :
    {events : ℕ → Event} {s : Server} {fd : ℕ} {left : ℕ → ℕ}
    → IsServer s
    → fd ≢ s.listen_sock
    → IsStream events s fd left
    → mem fd s.registered ≡ true
    → reported fd s.out ≡ 0
    → (m : ℕ) × (watched fd (after events s m) ≡ false)
      × Holds (λ s'. reported fd s'.out ≡ left 0) (after events s m)
stream-served {events} {s} {fd} {left} is other stream is_watched none_yet =
    let (m, ended) = stream-closes is other stream in
    (
      m,
      ended,
      Holds-both (after events s m) (waits_watched is other stream is_watched m)
          (stream-total is other stream none_yet m)
          (λ s' ran waits total.
            all s' m (subst (λ r. watched fd r ≡ false) ran ended) waits total),
    )
  where
    all :
        (s' : Server) (m : ℕ)
        → mem fd s'.registered ≡ false
        → (mem fd s'.registered ≡ true) ⊎ (left m ≡ 0)
        → reported fd s'.out + left m ≡ left 0
        → reported fd s'.out ≡ left 0
    all s' m gone (inl here) total = cc
    all s' m gone (inr empty) total = omega (arith, empty, total)

-- The bytes that a client hands to `send`.
abbrev pub sent_bytes : List Act → ℕ
sent_bytes [] = 0
sent_bytes (connects fd address sin_port ∷ acts) = sent_bytes acts
sent_bytes (sends fd buf ∷ acts) = length buf + sent_bytes acts
sent_bytes (closes fd ∷ acts) = sent_bytes acts

sent_bytes-main :
    (inet_addr : List ℕ → ℕ) (arg : Option (List ℕ)) (sockfd : ℕ)
    → sent_bytes (Client.main inet_addr arg (record { socket = some sockfd; connect = true })).1
      ≡ 10240
sent_bytes-main inet_addr arg sockfd =
    ap (λ r. sent_bytes r.1) (main-sends inet_addr arg sockfd)
    ∙ omega (arith, length-replicate {A = ℕ} 10240 0x55)

-- So the bytes of tcp_client.c are reported, where its `send` takes all of them: 10240, unless
-- the server exits.
pub client-served :
    {events : ℕ → Event} {s : Server} {fd : ℕ} {left : ℕ → ℕ} (inet_addr : List ℕ → ℕ)
    (arg : Option (List ℕ)) (sockfd : ℕ)
    → IsServer s
    → fd ≢ s.listen_sock
    → IsStream events s fd left
    → mem fd s.registered ≡ true
    → reported fd s.out ≡ 0
    → left 0
      ≡ sent_bytes (Client.main inet_addr arg (record { socket = some sockfd; connect = true })).1
    → (m : ℕ) × (watched fd (after events s m) ≡ false)
      × Holds (λ s'. reported fd s'.out ≡ 10240) (after events s m)
client-served {events} {s} {fd} inet_addr arg sockfd is other stream is_watched none_yet handed =
    let (m, ended, all) = stream-served is other stream is_watched none_yet in
    let total = handed ∙ sent_bytes-main inet_addr arg sockfd in
    (m, ended, subst (λ n. Holds (λ s'. reported fd s'.out ≡ n) (after events s m)) total all)
