-- ===== src/Tcp/Client.antt =====
-- src/linux/socket/tcp/tcp_client.c, which sends a buffer and closes.
use linux_summary.Base.{
  ℕ, zero, suc, Bool, true, Option, none, some, List, [], ◌∷◌, ◌++◌, replicate, ◌≡◌, refl, sym, ◌∙◌,
  append-nil, append_assoc, if◌then◌else◌,
}
use linux_summary.Base.Text.{codes}
use linux_summary.Tcp.{port}

abbrev pub max_len : ℕ
max_len = 10240

-- The results of the calls.
pub record Answers : Type 0 where
  pub socket : Option ℕ
  pub connect : Bool

pub data Act : Type 0 where
  connects : (fd address sin_port : ℕ) → Act
  sends : (fd : ℕ) → List ℕ → Act
  closes : (fd : ℕ) → Act

-- The loop that fills `buf`, with `n` rounds left, over the part of it that is filled.
unfoldable pub fill_buf : (n : ℕ) → List ℕ → List ℕ
fill_buf zero buf = buf
fill_buf (suc n) buf = fill_buf n (buf ++ 0x55 ∷ [])

-- The address in `serv_addr`.
unfoldable pub server_address : (inet_addr : List ℕ → ℕ) → Option (List ℕ) → ℕ
server_address inet_addr none = inet_addr (codes "127.0.0.1")
server_address inet_addr (some arg) = inet_addr arg

-- The program: its exit code and its acts. The result of `send` is not read.
unfoldable pub main : (inet_addr : List ℕ → ℕ) → Option (List ℕ) → Answers → ℕ × List Act
unfolding fill_buf server_address
main inet_addr arg a = elim a.socket [
  | none ↦ (1, [])
  | some sockfd ↦
      let connect = connects sockfd (server_address inet_addr arg) port in
      if a.connect
      then (0, connect ∷ sends sockfd (fill_buf max_len []) ∷ closes sockfd ∷ [])
      else (1, connect ∷ [])
]

fill_buf-replicate : (n : ℕ) (buf : List ℕ) → fill_buf n buf ≡ buf ++ replicate n 0x55
unfolding fill_buf
fill_buf-replicate zero buf = sym (append-nil buf)
fill_buf-replicate (suc n) buf =
    fill_buf-replicate n (buf ++ 0x55 ∷ []) ∙ append_assoc buf (0x55 ∷ []) (replicate n 0x55)

pub main-sends :
    (inet_addr : List ℕ → ℕ) (arg : Option (List ℕ)) (sockfd : ℕ)
    → main inet_addr arg (record { socket = some sockfd; connect = true }) ≡ (
      0,
      connects sockfd (server_address inet_addr arg) port
          ∷ sends sockfd (replicate max_len 0x55)
          ∷ closes sockfd
          ∷ [],
    )
unfolding main
main-sends inet_addr arg sockfd = rw (main, fill_buf-replicate max_len []) refl
