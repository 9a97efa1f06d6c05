-- ===== src/Tcp/Speed.antt =====
-- src/linux/socket/tcp_speed/: a client that sends as much as it can, and a server that counts.

use linux_summary.Base.{
  ℕ, zero, suc, ◌+◌, ◌*◌, ◌%◌, ◌^◌, ◌<◌, ◌≤◌, ◌≡◌, refl, ap, ◌∙◌, inl, inr, Bool, true, false,
  Option, none, some, List, [], ◌∷◌, ◌++◌, map, if◌then◌else◌, Bool-cases, arith,
}
use linux_summary.Base.Int.{ℤ, pos, ltb_ℤ, pos_part}

abbrev pub datas : ℕ
datas = 1000000

abbrev pub max_len : ℕ
max_len = 65536

-- The loop over `send`, with `n` rounds left: `num`, and whether the error was printed. `send n` is
-- the result of the round that has `n` rounds behind it.
unfoldable pub send_loop : (send : ℕ → ℤ) → (n num : ℕ) → ℕ × Bool
send_loop send zero num = (num, false)
send_loop send (suc n) num =
    let more = send_loop send n ((num + pos_part (send n)) % 2 ^ 64) in
    if ltb_ℤ (pos 0) (send n) then more else (num, true)

pub record ClientAnswers : Type 0 where
  pub socket : Option ℕ
  pub connect : Bool
  pub send : ℕ → ℤ

-- The client: its exit code, the total that it prints, and the sockets that it leaves open.
unfoldable pub client : ClientAnswers → ℕ × Option ℕ × List ℕ
unfolding send_loop
client a = elim a.socket [
  | none ↦ (1, none, [])
  | some sockfd ↦
      (if a.connect then (0, some (send_loop a.send datas 0).0, []) else (1, none, sockfd ∷ []))
]

-- `while ((ret = recv(...)) > 0)` over the results to come: the total, `none` while the loop waits.
unfoldable pub recv_loop : ℕ → List ℤ → Option ℕ
recv_loop num [] = none
recv_loop num (ret ∷ rest) =
    let more = recv_loop ((num + pos_part ret) % 2 ^ 64) rest in
    if ltb_ℤ (pos 0) ret then more else some num

pub record ServerAnswers : Type 0 where
  pub socket : Option ℕ
  pub bind : Bool
  pub listen : Bool
  pub accept : Option ℕ
  pub recv : List ℤ

-- How the server stands: its exit code, the total that it has printed, and the sockets that are
-- open.
pub record Outcome : Type 0 where
  pub code : Option ℕ
  pub printed : Option ℕ
  pub opened : List ℕ

-- The calls from `bind` on.
unfoldable pub serve : ServerAnswers → (listen_sock : ℕ) → Outcome
unfolding recv_loop
serve a listen_sock =
    let failed : Outcome = record { code = some 1; printed = none; opened = listen_sock ∷ [] } in
    if a.bind
    then (if a.listen
        then elim a.accept [
          | none ↦ failed
          | some conn_sock ↦ elim (recv_loop 0 a.recv) [
            | none ↦ record { code = none; printed = none; opened = conn_sock ∷ listen_sock ∷ [] }
            | some num ↦ record {
              code = some 0;
              printed = some num;
              opened = conn_sock ∷ listen_sock ∷ [];
            }
          ]
        ]
        else failed)
    else failed

unfoldable pub server : ServerAnswers → Outcome
unfolding serve
server a = elim a.socket [
  | none ↦ record { code = some 1; printed = none; opened = [] }
  | some listen_sock ↦ serve a listen_sock
]

-- The bytes that `send` takes, up to the round that fails.
unfoldable pub bytes_taken : (send : ℕ → ℤ) → ℕ → ℕ
bytes_taken send zero = 0
bytes_taken send (suc n) =
    let more = bytes_taken send n in if ltb_ℤ (pos 0) (send n) then pos_part (send n) + more else 0

abbrev pub sum : List ℕ → ℕ
sum [] = 0
sum (n ∷ ns) = n + sum ns

bytes_taken_le :
    (send : ℕ → ℤ) (n : ℕ)
    → ((i : ℕ) → pos_part (send i) ≤ max_len)
    → bytes_taken send n ≤ n * max_len
unfolding bytes_taken
bytes_taken_le send zero h = omega arith
bytes_taken_le send (suc n) h = elim (Bool-cases (ltb_ℤ (pos 0) (send n))) [
  | inl more ↦ rw more (omega (arith, bytes_taken_le send n h, h n))
  | inr stops ↦ rw stops (omega arith)
]

send_loop-taken :
    (send : ℕ → ℤ) (n num : ℕ)
    → num + bytes_taken send n < 2 ^ 64
    → (send_loop send n num).0 ≡ num + bytes_taken send n
unfolding send_loop bytes_taken
send_loop-taken send zero num h = omega arith
send_loop-taken send (suc n) num h = elim (Bool-cases (ltb_ℤ (pos 0) (send n))) [
  | inl more ↦
      let round : bytes_taken send (suc n) ≡ pos_part (send n) + bytes_taken send n =
        rw (bytes_taken, more) refl in
      let w : num + (pos_part (send n) + bytes_taken send n) < 2 ^ 64 = omega (arith, h, round) in
      rw (send_loop, more)
        (send_loop-taken send n ((num + pos_part (send n)) % 2 ^ 64) (omega (arith, w))
          ∙ omega (arith, w))
  | inr stops ↦ rw (send_loop, bytes_taken, stops) (omega arith)
]

recv_loop-sum :
    (num : ℕ) (ns : List ℕ) (last : ℤ) (rest : List ℤ)
    → num + sum (map suc ns) < 2 ^ 64
    → ltb_ℤ (pos 0) last ≡ false
    → recv_loop num (map (λ n. pos (suc n)) ns ++ last ∷ rest) ≡ some (num + sum (map suc ns))
unfolding recv_loop
recv_loop-sum num [] last rest w h = rw h (ap (λ n. some n) (omega arith))
recv_loop-sum num (n ∷ ns) last rest w h =
    let more : ltb_ℤ (pos 0) (pos (suc n)) ≡ true = ground arith in
    rw (recv_loop, more)
      (recv_loop-sum ((num + suc n) % 2 ^ 64) ns last rest (omega arith) h
        ∙ ap (λ k. some k) (omega arith))

module _ (send : ℕ → ℤ) (n : ℕ) (h : (i : ℕ) → pos_part (send i) ≤ max_len)
    (rounds : n ≤ 1000000) where
  bytes_taken_small : bytes_taken send n < 2 ^ 64
  bytes_taken_small = omega (arith, bytes_taken_le send n h)

  client_total : (send_loop send n 0).0 ≡ bytes_taken send n
  client_total =
      let w : 0 + bytes_taken send n < 2 ^ 64 = omega (arith, bytes_taken_small) in
      send_loop-taken send n 0 w ∙ omega arith

  server_total :
      (ns : List ℕ) (last : ℤ) (rest : List ℤ)
      → sum (map suc ns) ≡ bytes_taken send n
      → ltb_ℤ (pos 0) last ≡ false
      → recv_loop 0 (map (λ n. pos (suc n)) ns ++ last ∷ rest) ≡ some (bytes_taken send n)
  server_total ns last rest delivered closed =
      let w : 0 + sum (map suc ns) < 2 ^ 64 = omega (arith, bytes_taken_small, delivered) in
      recv_loop-sum 0 ns last rest w closed ∙ ap (λ k. some k) (omega (arith, delivered))

datas_rounds : datas ≤ 1000000
datas_rounds = omega arith

-- A client and a server that are connected, where what the server receives (the sizes are `suc n`
-- for the `n` of `ns`) is what the client's `send` has taken, up to the end of the connection,
-- and no `send` takes more than it is given: both print this number, without a wrap, with the
-- exit code 0. The client has closed its socket, and the server leaves both of its own open.
pub client-server :
    (send : ℕ → ℤ) (ns : List ℕ) (last : ℤ) (rest : List ℤ) (sockfd listen_sock conn_sock : ℕ)
    → ((i : ℕ) → pos_part (send i) ≤ max_len)
    → sum (map suc ns) ≡ bytes_taken send datas
    → ltb_ℤ (pos 0) last ≡ false
    → (client (record { socket = some sockfd; connect = true; send = send })
        ≡ (0, some (bytes_taken send datas), []))
      × (server (record {
        socket = some listen_sock;
        bind = true;
        listen = true;
        accept = some conn_sock;
        recv = map (λ n. pos (suc n)) ns ++ last ∷ rest;
      })
          ≡ record {
            code = some 0;
            printed = some (bytes_taken send datas);
            opened = conn_sock ∷ listen_sock ∷ [];
          })
unfolding client server serve
client-server send ns last rest sockfd listen_sock conn_sock h delivered closed = (
  rw (client, client_total send datas h datas_rounds) refl,
  rw (server, serve, server_total send datas h datas_rounds ns last rest delivered closed) refl,
)
