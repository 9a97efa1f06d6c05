-- ===== src/Vsock/Server.antt =====
-- vsock_server.c
use native.Mathlib.Nat.{zero-add}
use linux_summary.Base.{
  inl, inr, Bool-cases, ℕ, zero, suc, ◌+◌, ◌%◌, ◌^◌, ◌<◌, ◌≡◌, refl, ap, ◌∙◌, ◌⊎◌, Bool, true,
  false, Option, none, some, List, [], ◌∷◌, ◌++◌, if◌then◌else◌, arith, map,
}
use linux_summary.Base.Int.{ℤ, pos, ltb_ℤ}
use linux_summary.Vsock.{parse_port, Act, opened, closed, behind, behind-append, ==_same}

-- The sockets that `socket` and `accept` give, and whether the other calls succeed.
pub record Answers : Type 0 where
  pub socket : Option ℕ
  pub bind : Bool
  pub listen : Bool
  pub accept : Option ℕ

-- From the socket on: the client's socket, or none for -1.
unfoldable pub listen_on : (bind listen : Bool) (accept : Option ℕ) → ℕ → Option ℕ × List Act
listen_on false listen accept fd = (none, opened fd ∷ closed fd ∷ [])
listen_on true false accept fd = (none, opened fd ∷ closed fd ∷ [])
listen_on true true none fd = (none, opened fd ∷ closed fd ∷ [])
listen_on true true (some client) fd = (some client, opened fd ∷ opened client ∷ closed fd ∷ [])

unfoldable pub vsock_listen : (port : ℤ) → Answers → Option ℕ × List Act
unfolding listen_on
vsock_listen port a =
    if ltb_ℤ port (pos 0)
    then (none, [])
    else elim a.socket [ none ↦ (none, []) | some fd ↦ listen_on a.bind a.listen a.accept fd ]

-- `while ((ret = recv(...)) > 0)` over the results to come, `none` for -1: the total of type
-- `unsigned long long`, `none` while the loop waits.
unfoldable pub recv_loop : ℕ → List (Option ℕ) → Option ℕ
recv_loop num [] = none
recv_loop num (none ∷ rest) = some num
recv_loop num (some zero ∷ rest) = some num
recv_loop num (some (suc n) ∷ rest) = recv_loop ((num + suc n) % 2 ^ 64) rest

-- How the program stands: its exit code, the total that it has printed, and its acts.
pub record Outcome : Type 0 where
  pub code : Option ℕ
  pub printed : Option ℕ
  pub acts : List Act

-- `main` behind the call of `vsock_listen`.
unfoldable pub serve : Option ℕ × List Act → List (Option ℕ) → Outcome
unfolding recv_loop
serve (none, acts) results = record { code = some 1; printed = none; acts = acts }
serve (some fd, acts) results = elim (recv_loop 0 results) [
  | none ↦ record { code = none; printed = none; acts = acts }
  | some num ↦ record { code = some 0; printed = some num; acts = acts ++ closed fd ∷ [] }
]

unfoldable pub main :
    (strtol : List ℕ → ℤ × ℕ) → Option (List ℕ) → Answers → List (Option ℕ) → Outcome
unfolding parse_port vsock_listen serve
main strtol none a results = record { code = some 1; printed = none; acts = [] }
main strtol (some text) a results = serve (vsock_listen (parse_port strtol text) a) results

-- What `vsock_listen` leaves open: the client's socket alone, or nothing where it gives none.
abbrev pub Leaves : (accept : Option ℕ) → Option ℕ × List Act → Type 0
Leaves accept (none, acts) = behind acts [] ≡ []
Leaves accept (some client, acts) = (accept ≡ some client) × (behind acts [] ≡ client ∷ [])

listen_on-Leaves :
    (bind listen : Bool) (accept : Option ℕ) (fd : ℕ)
    → Leaves accept (listen_on bind listen accept fd)
unfolding listen_on
listen_on-Leaves false listen accept fd = rw (==_same fd) refl
listen_on-Leaves true false accept fd = rw (==_same fd) refl
listen_on-Leaves true true none fd = rw (==_same fd) refl
listen_on-Leaves true true (some client) fd = (refl, ground arith)

vsock_listen-Leaves : (port : ℤ) (a : Answers) → Leaves a.accept (vsock_listen port a)
unfolding vsock_listen
vsock_listen-Leaves port a = elim (Bool-cases (ltb_ℤ port (pos 0))) [
  | inl low ↦ rw (vsock_listen, low) refl
  | inr valid ↦ go a.socket refl valid
]
  where
    go :
        (s : Option ℕ)
        → a.socket ≡ s
        → ltb_ℤ port (pos 0) ≡ false
        → Leaves a.accept (vsock_listen port a)
    go none e valid = rw (vsock_listen, valid, e) refl
    go (some fd) e valid =
        rw (vsock_listen, valid, e) (listen_on-Leaves a.bind a.listen a.accept fd)

-- How the program may stand: it has exited with every socket closed, and has printed the total
-- exactly if the exit code is 0; or it waits with the client's socket alone open.
abbrev pub Stands : Answers → Outcome → Type 0
Stands a o =
    ((o.code ≡ some 1) × (o.printed ≡ none) × (behind o.acts [] ≡ []))
    ⊎ ((o.code ≡ some 0) × ((num : ℕ) × (o.printed ≡ some num)) × (behind o.acts [] ≡ []))
    ⊎ ((o.code ≡ none)
        × (o.printed ≡ none)
        × ((client : ℕ) × (a.accept ≡ some client) × (behind o.acts [] ≡ client ∷ [])))

serve-Stands :
    (a : Answers) (r : Option ℕ × List Act) (results : List (Option ℕ))
    → Leaves a.accept r
    → Stands a (serve r results)
unfolding serve
serve-Stands a (none, acts) results h = inl (refl, refl, h)
serve-Stands a (some fd, acts) results h = go (recv_loop 0 results) refl
  where
    go : (r : Option ℕ) → recv_loop 0 results ≡ r → Stands a (serve (some fd, acts) results)
    go none e = rw (serve, e) (inr (inr (refl, refl, (fd, h.0, h.1))))
    go (some num) e =
        rw (serve, e)
          (inr (
            inl (
              refl,
              (num, refl),
              behind-append acts (closed fd ∷ []) [] ∙ rw (h.1, ==_same fd) refl,
            )))

-- Whatever the argument, the calls and the results: when the program exits, every socket that it
-- opened is closed, and the total is printed exactly when the exit code is 0; while it waits, the
-- client's socket alone is open.
pub main-Stands :
    (strtol : List ℕ → ℤ × ℕ) (arg : Option (List ℕ)) (a : Answers) (results : List (Option ℕ))
    → Stands a (main strtol arg a results)
unfolding main
main-Stands strtol none a results = inl (refl, refl, refl)
main-Stands strtol (some text) a results =
    serve-Stands a (vsock_listen (parse_port strtol text) a) results
      (vsock_listen-Leaves (parse_port strtol text) a)

abbrev pub sum : List ℕ → ℕ
sum [] = 0
sum (n ∷ ns) = suc n + sum ns

recv_loop-sum :
    (num : ℕ) (ns : List ℕ) (last : Option ℕ) (rest : List (Option ℕ))
    → num < 2 ^ 64
    → (last ≡ none) ⊎ (last ≡ some 0)
    → recv_loop num (map (λ n. some (suc n)) ns ++ last ∷ rest) ≡ some ((num + sum ns) % 2 ^ 64)
unfolding recv_loop
recv_loop-sum num [] none rest b h = ap (λ n. some n) (omega arith)
recv_loop-sum num [] (some zero) rest b h = ap (λ n. some n) (omega arith)
recv_loop-sum num [] (some (suc n)) rest b h = ground arith
recv_loop-sum num (n ∷ ns) last rest b h =
    recv_loop-sum ((num + suc n) % 2 ^ 64) ns last rest (omega arith) h
    ∙ ap (λ k. some k) (omega arith)

-- With a port from 0 on and calls that succeed, the total printed is the sum of the sizes
-- received up to the end of the connection or an error, modulo 2 ^ 64. What comes behind is not
-- read. (Each element of `ns` is a size less one.)
pub main-sum :
    (strtol : List ℕ → ℤ × ℕ) (text : List ℕ) (port fd client : ℕ) (ns : List ℕ) (last : Option ℕ)
    (rest : List (Option ℕ))
    → parse_port strtol text ≡ pos port
    → (last ≡ none) ⊎ (last ≡ some 0)
    → let a : Answers = record {
      socket = some fd;
      bind = true;
      listen = true;
      accept = some client;
    } in
      let o = main strtol (some text) a (map (λ n. some (suc n)) ns ++ last ∷ rest) in
      (o.code ≡ some 0) × (o.printed ≡ some (sum ns % 2 ^ 64))
unfolding main vsock_listen listen_on serve
main-sum strtol text port fd client ns last rest parsed h =
    let a : Answers = record {
      socket = some fd;
      bind = true;
      listen = true;
      accept = some client;
    } in
    let low : ltb_ℤ (pos port) (pos 0) ≡ false = ground arith in
    let total = recv_loop-sum 0 ns last rest (omega arith) h in
    let acts = opened fd ∷ opened client ∷ closed fd ∷ [] in
    let listens : vsock_listen (pos port) a ≡ (some client, acts) = rw (vsock_listen, low) refl in
    rw (main, parsed, listens, serve, total, zero-add) (refl, refl)
