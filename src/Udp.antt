-- ===== src/Udp.antt =====
-- The programs src/linux/socket/udp/udp_client.c and udp_server.c.
pub mod Texts
pub mod Table
mod Tests
use linux_summary.Base.{
  ℕ, zero, suc, ◌+◌, ◌-◌, Bool, true, false, if◌then◌else◌, Option, none, some, List, [], ◌∷◌, ◌++◌,
  length, take, drop, replicate,
}
use linux_summary.Base.Int.{ℤ, pos, negsuc}
use linux_summary.Base.Text.{codes}
use linux_summary.Base.Strto.{c_string, has_nul}

abbrev pub buf_len : ℕ
buf_len = 16

-- The client's `buf`, of type `char[BUF_LEN]`.
abbrev pub message : List ℕ
message = take buf_len (codes "Hello World" ++ replicate buf_len 0)

pub data Act : Type 0 where
  sent : List ℕ → (address : ℕ) → Act
  result : ℤ → Act
  closed : Act

-- The client: whether there is a socket, and the result of `sendto`. Its exit code and its acts.
unfoldable pub client :
    (inet_addr : List ℕ → ℕ) (arg : Option (List ℕ)) (has_socket : Bool) (ret : ℤ) → ℕ × List Act
client inet_addr arg false ret = (1, [])
client inet_addr none true ret =
    (0, sent message (inet_addr (codes "127.0.0.1")) ∷ result ret ∷ closed ∷ [])
client inet_addr (some text) true ret =
    (0, sent message (inet_addr text) ∷ result ret ∷ closed ∷ [])

-- How the server stands: all texts that it has printed, and whether it waits, has exited with 1, or
-- has read behind `buf`.
pub data Server : Type 0 where
  waiting failed reads_beyond : List (List ℕ) → Server

-- `recvfrom` into `buf`: the first `BUF_LEN` bytes of the packet; the bytes behind them are lost.
abbrev pub received : List ℕ → List ℕ → List ℕ
received bytes buf = let landed = take buf_len bytes in landed ++ drop (length landed) buf

-- `while (1)`, over the packets to come, none for -1.
unfoldable pub serve : List (Option (List ℕ)) → (buf : List ℕ) (printed : List (List ℕ)) → Server
unfolding c_string
serve [] buf printed = waiting printed
serve (none ∷ rest) buf printed = failed printed
serve (some bytes ∷ rest) buf printed =
    let buf' = received bytes buf in
    let more = serve rest buf' (printed ++ c_string buf' ∷ []) in
    if has_nul buf' then more else reads_beyond printed

-- The server; `buf` holds anything at first.
unfoldable pub server : (has_socket binds : Bool) → List (Option (List ℕ)) → (buf : List ℕ) → Server
unfolding serve
server true true packets buf = serve packets buf []
server true false packets buf = failed []
server false binds packets buf = failed []
