-- ===== src/Udp/Tests.antt =====
-- The server at packets of the client and of another program, and the table of zudp.c.
use linux_summary.Base.{
  ℕ, ◌<◌, ◌≤◌, length, take, ◌++◌, ◌≡◌, refl, true, false, Option, none, some, List, [], ◌∷◌,
  replicate, ◌==◌, if◌then◌else◌, arith,
}
use linux_summary.Base.Text.{codes}
use linux_summary.Base.Strto.{has_nul}
use linux_summary.Udp.{message, waiting, failed, reads_beyond, server}
use linux_summary.Udp.Texts.{Packet, bytes_of, server-texts}
use linux_summary.Udp.Table.{Slot}

abbrev hello : Packet
hello = record { text = codes "Hello World"; rest = replicate 4 0 }

hello-message : bytes_of hello ≡ message
hello-message = refl

-- Sixteen bytes without an end are read beyond the buffer; a packet without an end shows what the
-- one before it left.
server-beyond : server true true (some (replicate 16 b'a') ∷ []) (replicate 16 0) ≡ reads_beyond []
unfolding server
server-beyond = refl

server-stale :
    server true true (some message ∷ some (codes "Bye") ∷ []) (replicate 16 0)
    ≡ waiting (codes "Hello World" ∷ codes "Byelo World" ∷ [])
unfolding server
server-stale = refl

server-cut :
    server true true (some (codes "Hello wide World" ++ 0 ∷ []) ∷ []) (replicate 16 0)
    ≡ reads_beyond []
unfolding server
server-cut = refl

abbrev buf_at_first : List ℕ
buf_at_first = replicate 16 0x55

server-texts_example :
    (server true true (some message ∷ some message ∷ []) buf_at_first
      ≡ waiting (codes "Hello World" ∷ codes "Hello World" ∷ []))
    × ((rest : List (Option (List ℕ)))
        → server true true (some message ∷ some message ∷ none ∷ rest) buf_at_first
          ≡ failed (codes "Hello World" ∷ codes "Hello World" ∷ []))
    × ((bytes : List ℕ) (rest : List (Option (List ℕ)))
        → 16 ≤ length bytes
        → has_nul (take 16 bytes) ≡ false
        → server true true (some message ∷ some message ∷ some bytes ∷ rest) buf_at_first
          ≡ reads_beyond (codes "Hello World" ∷ codes "Hello World" ∷ []))
server-texts_example =
    server-texts (hello ∷ hello ∷ []) buf_at_first refl
      ((refl, omega arith), ((refl, omega arith), tt))

abbrev slot : Slot
slot = record { count = 1; socks = record { dport = 0; num = 7788; daddr = 0; rcv_saddr = 0 } ∷ [] }

abbrev hash : ℕ → Slot
hash i = if i == 3 then record { count = 0; socks = [] } else slot

hash-slot : (i : ℕ) → i < 3 → hash i ≡ slot
hash-slot i h = let other : (i == 3) ≡ false = ground (arith, h) in rw other refl
