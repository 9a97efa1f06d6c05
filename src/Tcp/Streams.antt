-- ===== src/Tcp/Streams.antt =====
-- tcp_server.c: a connection whose peer has sent all of its bytes and closed.
use mathlib.Core.Path.{subst}
use linux_summary.Base.{
  ℕ, zero, suc, ◌+◌, ◌-◌, ◌*◌, ◌≤◌, min, ◌≡◌, ◌≢◌, refl, ap, sym, ◌∙◌, Bool, true, false,
  Bool-cases, inl, inr, ◌⊎◌, ℕ_discrete, Option, none, some, List, [], ◌∷◌, ◌++◌, ◌==◌, arith,
}
use linux_summary.Base.Int.{ℤ, pos, negsuc}
use linux_summary.Tcp.{mem, distinct, mem-append, mem-remove_same}
use linux_summary.Tcp.Server.{
  max_len, Server, Run, running, exited, Event, do_use_fd, accept_from, use_fd, handle, handle_all,
}
use linux_summary.Tcp.Sockets.{IsServer, IsBatch, Fresh, Holds, handle-IsServer}

abbrev pub and_then : Run → (Server → Run) → Run
and_then (running s) f = f s
and_then (exited s) f = exited s

pub handle_all-last :
    (es : List Event) (e : Event) (s : Server)
    → handle_all (es ++ e ∷ []) s ≡ and_then (handle_all es s) (handle e)
unfolding handle_all
handle_all-last [] e s = go (handle e s) refl
  where
    go : (r : Run) → handle e s ≡ r → handle_all (e ∷ []) s ≡ handle e s
    go (running s') ran = rw (handle_all, ran) refl
    go (exited s') ran = rw (handle_all, ran) refl
handle_all-last (f ∷ es) e s = go (handle_all-last es e) (handle f s) refl
  where
    go :
        ((s' : Server) → handle_all (es ++ e ∷ []) s' ≡ and_then (handle_all es s') (handle e))
        → (r : Run) → handle f s ≡ r
        → handle_all (f ∷ es ++ e ∷ []) s ≡ and_then (handle_all (f ∷ es) s) (handle e)
    go rest (running s') ran = rw (handle_all, ran) (rest s')
    go rest (exited s') ran = rw (handle_all, ran) refl

-- The first events of a schedule, and how the server stands behind them.
abbrev pub first : (ℕ → Event) → ℕ → List Event
first events zero = []
first events (suc k) = first events k ++ events k ∷ []

abbrev pub after : (ℕ → Event) → Server → ℕ → Run
after events s k = handle_all (first events k) s

-- The server goes on and watches the socket.
abbrev pub watched : ℕ → Run → Bool
watched fd (running s) = mem fd s.registered
watched fd (exited s) = false

-- The kernel on a connection whose peer has sent and closed: `left k` bytes wait behind `k` events.
pub record IsStream (events : ℕ → Event) (s : Server) (fd : ℕ) (left : ℕ → ℕ) : Type 0 where
  pub batch : (k : ℕ) (s' : Server) → after events s k ≡ running s' → IsBatch (events k ∷ []) s'
  pub fresh : (k : ℕ) (s' : Server) → after events s k ≡ running s' → Fresh (events k ∷ []) s'
  pub reads : (k : ℕ) → (events k).fd ≡ fd → (events k).recv ≡ pos (min max_len (left k))
  pub taken : (k : ℕ) → (events k).fd ≡ fd → left (suc k) ≡ left k - max_len
  pub kept : (k : ℕ) → (events k).fd ≢ fd → left (suc k) ≡ left k
  pub again :
      (k : ℕ) → watched fd (after events s k) ≡ true → (j : ℕ) × (k ≤ j) × ((events j).fd ≡ fd)

handle-listen_sock :
    (e : Event) (s : Server) → Holds (λ s'. s'.listen_sock ≡ s.listen_sock) (handle e s)
unfolding handle accept_from use_fd do_use_fd
handle-listen_sock e s = go (e.fd == s.listen_sock) refl e.accept refl e.adds refl e.recv refl
  where
    go :
        (b : Bool)
        → (e.fd == s.listen_sock) ≡ b
        → (a : Option ℕ) → e.accept ≡ a
        → (i : Bool) → e.adds ≡ i
        → (n : ℤ) → e.recv ≡ n
        → Holds (λ s'. s'.listen_sock ≡ s.listen_sock) (handle e s)
    go true p none q i r n t = rw (handle, p, accept_from, q) refl
    go true p (some c) q true r n t = rw (handle, p, accept_from, q, r) refl
    go true p (some c) q false r n t = rw (handle, p, accept_from, q, r) refl
    go false p a q i r (pos zero) t = rw (handle, p, t) refl
    go false p a q i r (pos (suc n)) t = rw (handle, p, t) refl
    go false p a q i r (negsuc n) t = rw (handle, p, t) refl

distinct-front : (xs ys : List ℕ) → distinct (xs ++ ys) ≡ true → distinct xs ≡ true
distinct-front [] ys h = refl
distinct-front (x ∷ xs) ys h = ground (arith, distinct-front xs ys, mem-append x xs ys)

handle-closes :
    (e : Event) (s : Server)
    → IsServer s
    → e.fd ≢ s.listen_sock
    → e.recv ≡ pos 0
    → watched e.fd (handle e s) ≡ false
unfolding handle use_fd do_use_fd
handle-closes e s is other ended =
    let apart : (e.fd == s.listen_sock) ≡ false = ground arith in
    let once =
      distinct-front s.registered (s.epollfd ∷ []) (ap distinct (sym is.opens) ∙ is.once) in
    rw (handle, apart, ended) (mem-remove_same e.fd s.registered once)

-- What holds behind the next event, if it does behind each server that goes on.
pub Holds-after :
    (P Q : Server → Type 0) (events : ℕ → Event) (s : Server) (k : ℕ)
    → Holds P (after events s k)
    → ((s' : Server) → after events s k ≡ running s' → P s' → Holds Q (handle (events k) s'))
    → Holds Q (after events s (suc k))
Holds-after P Q events s k h step = go (after events s k) refl
  where
    go : (r : Run) → after events s k ≡ r → Holds Q (after events s (suc k))
    go (exited s') ran = rw (handle_all-last (first events k) (events k) s, ran) refl
    go (running s') ran =
        rw (handle_all-last (first events k) (events k) s, ran)
          (step s' ran (subst (Holds P) ran h))

module _ {events : ℕ → Event} {s : Server} {fd : ℕ} {left : ℕ → ℕ} (is : IsServer s)
    (other : fd ≢ s.listen_sock) (stream : IsStream events s fd left) where
  after-IsServer : (k : ℕ) → Holds IsServer (after events s k)
  unfolding handle_all
  after-IsServer zero = is
  after-IsServer (suc k) =
      Holds-after IsServer IsServer events s k (after-IsServer k) (λ s' ran server.
        handle-IsServer (events k) s' server (stream.batch k s' ran).watched.0
          (stream.fresh k s' ran).0)

  pub after-listen_sock : (k : ℕ) → Holds (λ s'. s'.listen_sock ≡ s.listen_sock) (after events s k)
  unfolding handle_all
  after-listen_sock zero = refl
  after-listen_sock (suc k) =
      Holds-after (λ s'. s'.listen_sock ≡ s.listen_sock) (λ s'. s'.listen_sock ≡ s.listen_sock)
        events s k (after-listen_sock k)
        (λ s' ran same.
          subst (λ l. Holds (λ t. t.listen_sock ≡ l) (handle (events k) s')) same
            (handle-listen_sock (events k) s'))

  left_falls : (k d j : ℕ) → j ≡ k + d → left j ≤ left k
  left_falls k zero j e = let same : left j ≡ left k = ap left (omega arith) in omega (arith, same)
  left_falls k (suc d) j e =
      let before = left_falls k d (k + d) refl in
      let here : left j ≡ left (suc (k + d)) = ap left (omega arith) in
      elim (ℕ_discrete (events (k + d)).fd fd) [
        | yes same ↦ omega (arith, before, here, stream.taken (k + d) same)
        | no differ ↦ omega (arith, before, here, stream.kept (k + d) differ)
      ]

  unwatched_behind :
      (k : ℕ) → (events k).fd ≡ fd → left k ≡ 0 → watched fd (after events s (suc k)) ≡ false
  unwatched_behind k same end = go (after events s k) refl
    where
      go : (r : Run) → after events s k ≡ r → watched fd (after events s (suc k)) ≡ false
      go (exited s') ran = rw (handle_all-last (first events k) (events k) s, ran) refl
      go (running s') ran =
          let server = subst (Holds IsServer) ran (after-IsServer k) in
          let listens =
            subst (Holds (λ s'. s'.listen_sock ≡ s.listen_sock)) ran (after-listen_sock k) in
          let ended : (events k).recv ≡ pos 0 =
            stream.reads k same ∙ ap (λ n. pos (min max_len n)) end in
          rw (handle_all-last (first events k) (events k) s, ran, ← same)
            (handle-closes (events k) s' server (ground (arith, other, listens, same)) ended)

  comes_back :
      (k : ℕ) → (watched fd (after events s k) ≡ false) ⊎ ((j : ℕ) × (k ≤ j) × ((events j).fd ≡ fd))
  comes_back k = elim (Bool-cases (watched fd (after events s k))) [
    | inl e ↦ inr (stream.again k e)
    | inr e ↦ inl e
  ]

  ends : (b k : ℕ) → left k ≤ b * max_len → (m : ℕ) × (watched fd (after events s m) ≡ false)
  ends zero k bound = elim (comes_back k) [
    | inl e ↦ (k, e)
    | inr (j, le, same) ↦
        (suc j, unwatched_behind j same (omega (arith, left_falls k (j - k) j (omega arith))))
  ]
  ends (suc b) k bound = elim (comes_back k) [
    | inl e ↦ (k, e)
    | inr (j, le, same) ↦
        ends b (suc j) (omega (arith, left_falls k (j - k) j (omega arith), stream.taken j same))
  ]

  -- However the events of other sockets come in between: a socket that is not the listening one,
  -- whose peer has sent and closed, is closed in the end, if the kernel comes back to a watched
  -- socket; or the server exits, which closes it too.
  pub stream-closes : (m : ℕ) × (watched fd (after events s m) ≡ false)
  stream-closes = ends (left 0) 0 (omega arith)
