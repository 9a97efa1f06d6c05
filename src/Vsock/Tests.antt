-- ===== src/Vsock/Tests.antt =====
-- The theorems on the two vsock programs at port 8.
use linux_summary.Base.{
  inr, ltb, if◌then◌else◌, arith, ◌≤◌, ℕ, ◌+◌, ◌-◌, ◌^◌, ◌≡◌, refl, true, some, List, [], ◌∷◌,
}
use linux_summary.Base.Int.{ℤ, pos}
use linux_summary.Vsock.{parse_port, behind}
use linux_summary.Vsock.Server
use linux_summary.Vsock.Client
use linux_summary.Vsock.Client.{datas}
use linux_summary.Vsock.Pair.{bytes_taken, sent-received}
use linux_summary.Vsock.Server.{Stands, main-Stands, sum, main-sum}

-- One digit.
abbrev strtol : List ℕ → ℤ × ℕ
strtol [] = (pos 0, 0)
strtol (c ∷ text) = (pos (c - b'0'), 1)

abbrev text : List ℕ
text = b'8' ∷ []

-- A number of more than 32 bits is taken for a port of its low 32 bits.
parse_port-wide :
    parse_port
      (λ t. (pos (2 ^ 32 + 8), 10))
      (b'4' ∷ b'2' ∷ b'9' ∷ b'4' ∷ b'9' ∷ b'6' ∷ b'7' ∷ b'3' ∷ b'0' ∷ b'4' ∷ [])
    ≡ pos 8
unfolding parse_port
parse_port-wide = refl

abbrev answers : Server.Answers
answers = record { socket = some 3; bind = true; listen = true; accept = some 4 }

main-Stands_example :
    Stands answers (Server.main strtol (some text) answers (some 100 ∷ some 20 ∷ some 0 ∷ []))
main-Stands_example = main-Stands strtol (some text) answers (some 100 ∷ some 20 ∷ some 0 ∷ [])

-- Two rounds of `send` succeed, and the third fails.
abbrev sent : ℕ → ℕ
sent i = if ltb 999997 i then 65536 else 0

sent-bound : (i : ℕ) → sent i ≤ 65536
sent-bound i = ground arith

sent-bytes_taken : sum (65535 ∷ 65535 ∷ []) ≡ bytes_taken sent datas
unfolding bytes_taken
sent-bytes_taken = refl

parse_port-text : parse_port strtol text ≡ pos 8
unfolding parse_port
parse_port-text = refl

sent-received_example :
    let (code, printed, acts) =
      Client.main strtol (some (text, text)) (record { socket = some 3; connect = true }) sent in
    let o = Server.main strtol (some text) answers (some 65536 ∷ some 65536 ∷ some 0 ∷ []) in
    (code ≡ 0)
    × (printed ≡ some (bytes_taken sent datas))
    × (behind acts [] ≡ [])
    × (o.code ≡ some 0)
    × (o.printed ≡ some (bytes_taken sent datas))
sent-received_example =
    sent-received strtol text text text 8 8 8 3 3 4 sent (65535 ∷ 65535 ∷ []) (some 0) []
      parse_port-text parse_port-text parse_port-text sent-bound sent-bytes_taken (inr refl)
