-- ===== src/Vsock/Pair.antt =====
-- vsock_client.c and vsock_server.c at the two ends of a connection.

use linux_summary.Base.{
  ℕ, zero, suc, ◌+◌, ◌*◌, ◌%◌, ◌^◌, ◌<◌, ◌≤◌, ◌≡◌, refl, ap, ap₂, ◌∙◌, true, false, Option, none,
  some, List, [], ◌∷◌, ◌++◌, ◌==◌, if◌then◌else◌, arith, Bool-cases, inl, inr, map, ◌⊎◌,
}
use linux_summary.Base.Int.{ℤ, pos, ltb_ℤ}
use linux_summary.Vsock.{parse_port, behind, ==_same, opened, closed}
use linux_summary.Vsock.Client
use linux_summary.Vsock.Client.{datas, max_len, send_loop, vsock_connect, send_all}
use linux_summary.Vsock.Server
use linux_summary.Vsock.Server.{sum, main-sum, Stands, main-Stands}

-- The bytes that `send` takes, up to the round that fails.
unfoldable pub bytes_taken : (sent : ℕ → ℕ) → ℕ → ℕ
bytes_taken sent zero = 0
bytes_taken sent (suc n) = let more = bytes_taken sent n in if sent n == 0 then 0 else sent n + more

bytes_taken_le :
    (sent : ℕ → ℕ) (n : ℕ) → ((i : ℕ) → sent i ≤ max_len) → bytes_taken sent n ≤ n * max_len
unfolding bytes_taken
bytes_taken_le sent zero h = omega arith
bytes_taken_le sent (suc n) h = elim (Bool-cases (sent n == 0)) [
  | inl stops ↦ rw stops (omega arith)
  | inr more ↦ rw more (omega (arith, bytes_taken_le sent n h, h n))
]

send_loop-taken :
    (sent : ℕ → ℕ) (n num : ℕ)
    → num + bytes_taken sent n < 2 ^ 64
    → send_loop sent n num ≡ num + bytes_taken sent n
unfolding send_loop bytes_taken
send_loop-taken sent zero num h = omega arith
send_loop-taken sent (suc n) num h = elim (Bool-cases (sent n == 0)) [
  | inl stops ↦ rw (send_loop, bytes_taken, stops) (omega arith)
  | inr more ↦
      let round : bytes_taken sent (suc n) ≡ sent n + bytes_taken sent n =
        rw (bytes_taken, more) refl in
      let w : num + (sent n + bytes_taken sent n) < 2 ^ 64 = omega (arith, h, round) in
      rw (send_loop, more)
        (send_loop-taken sent n ((num + sent n) % 2 ^ 64) (omega (arith, w)) ∙ omega (arith, w))
]

module _ (sent : ℕ → ℕ) (n : ℕ) (h : (i : ℕ) → sent i ≤ max_len) (rounds : n ≤ 1000000) where
  bytes_taken_small : bytes_taken sent n < 2 ^ 64
  bytes_taken_small = omega (arith, bytes_taken_le sent n h)

  total : send_loop sent n 0 ≡ bytes_taken sent n
  total =
      let w : 0 + bytes_taken sent n < 2 ^ 64 = omega (arith, bytes_taken_small) in
      send_loop-taken sent n 0 w ∙ omega arith

datas_rounds : datas ≤ 1000000
datas_rounds = omega arith

connects :
    (cid port fd : ℕ)
    → vsock_connect (pos cid) (pos port) (record { socket = some fd; connect = true })
      ≡ (some fd, opened fd ∷ [])
unfolding vsock_connect
connects cid port fd =
    let c : ltb_ℤ (pos cid) (pos 0) ≡ false = ground arith in
    let d : ltb_ℤ (pos port) (pos 0) ≡ false = ground arith in rw (vsock_connect, c, d) refl

sends :
    (fd : ℕ) (sent : ℕ → ℕ)
    → send_all (some fd, opened fd ∷ []) sent
      ≡ (0, some (send_loop sent datas 0), opened fd ∷ closed fd ∷ [])
unfolding send_all
sends fd sent = refl

closes : (fd : ℕ) → behind (opened fd ∷ closed fd ∷ []) [] ≡ []
closes fd = rw (==_same fd) refl

client_ends :
    (strtol : List ℕ → ℤ × ℕ) (cid_text text : List ℕ) (cid port fd : ℕ) (sent : ℕ → ℕ)
    → parse_port strtol cid_text ≡ pos cid
    → parse_port strtol text ≡ pos port
    → ((i : ℕ) → sent i ≤ max_len)
    → Client.main strtol (some (cid_text, text)) (record { socket = some fd; connect = true }) sent
      ≡ (0, some (bytes_taken sent datas), opened fd ∷ closed fd ∷ [])
unfolding Client.main
client_ends strtol cid_text text cid port fd sent p q h =
    let a : Client.Answers = record { socket = some fd; connect = true } in
    ap₂ (λ c d. send_all (vsock_connect c d a) sent) p q
    ∙ ap (λ r. send_all r sent) (connects cid port fd)
    ∙ sends fd sent
    ∙ ap (λ n. (0, some n, opened fd ∷ closed fd ∷ [])) (total sent datas h datas_rounds)

-- A client and a server with texts that hold numbers from 0 on and calls that succeed, no `send`
-- of which takes more than it is given, where what the server receives (the sizes are `suc n` for
-- the `n` of `ns`) is what these have taken, up to the end of the connection or an error: both
-- print this number, without a wrap, with the exit code 0, and the client has closed its socket.
pub sent-received :
    (strtol : List ℕ → ℤ × ℕ) (cid_text text server_text : List ℕ) (cid port server_port : ℕ)
    (fd listen_fd client_fd : ℕ) (sent : ℕ → ℕ) (ns : List ℕ) (last : Option ℕ)
    (rest : List (Option ℕ))
    → parse_port strtol cid_text ≡ pos cid
    → parse_port strtol text ≡ pos port
    → parse_port strtol server_text ≡ pos server_port
    → ((i : ℕ) → sent i ≤ max_len)
    → sum ns ≡ bytes_taken sent datas
    → (last ≡ none) ⊎ (last ≡ some 0)
    → let received = map (λ (n : ℕ). some (suc n)) ns ++ last ∷ rest in
      let (code, printed, acts) =
        Client.main strtol
          (some (cid_text, text))
          (record { socket = some fd; connect = true })
          sent in
      let o =
        Server.main strtol
          (some server_text)
          (record { socket = some listen_fd; bind = true; listen = true; accept = some client_fd })
          received in
      (code ≡ 0)
      × (printed ≡ some (bytes_taken sent datas))
      × (behind acts [] ≡ [])
      × (o.code ≡ some 0)
      × (o.printed ≡ some (bytes_taken sent datas))
sent-received strtol cid_text text server_text cid port server_port fd listen_fd client_fd sent ns
      last rest p q r h delivered ends =
    let c = client_ends strtol cid_text text cid port fd sent p q h in
    let (code, printed) =
      main-sum strtol server_text server_port listen_fd client_fd ns last rest r ends in
    let small : sum ns % 2 ^ 64 ≡ bytes_taken sent datas =
      omega (arith, delivered, bytes_taken_small sent datas h datas_rounds) in
    (
      ap (λ x. x.0) c,
      ap (λ x. x.1) c,
      ap (λ x. behind x.2 []) c ∙ closes fd,
      code,
      printed ∙ ap (λ n. some n) small,
    )
