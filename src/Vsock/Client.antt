-- ===== src/Vsock/Client.antt =====
-- vsock_client.c

use linux_summary.Base.{
  ℕ, zero, suc, ◌+◌, ◌*◌, ◌%◌, ◌^◌, ◌<◌, ◌≤◌, ◌≡◌, refl, ◌∙◌, Bool, true, false, Option, none, some,
  List, [], ◌∷◌, ◌++◌, ◌==◌, if◌then◌else◌, arith, Bool-cases, inl, inr, ◌⊎◌,
}
use linux_summary.Base.Int.{ℤ, pos, ltb_ℤ}
use linux_summary.Vsock.{parse_port, Act, opened, closed, behind, behind-append, ==_same}

abbrev pub datas : ℕ
datas = 1000000

abbrev pub max_len : ℕ
max_len = 65536

-- `parse_cid`, which differs from `parse_port` in its message alone.
abbrev pub parse_cid : (strtol : List ℕ → ℤ × ℕ) → List ℕ → ℤ
parse_cid strtol text = parse_port strtol text

pub record Answers : Type 0 where
  pub socket : Option ℕ
  pub connect : Bool

-- `vsock_connect`: the socket, or none for -1.
unfoldable pub vsock_connect : (cid port : ℤ) → Answers → Option ℕ × List Act
vsock_connect cid port a =
    if ltb_ℤ cid (pos 0)
    then (none, [])
    else (if ltb_ℤ port (pos 0) then (none, []) else elim a.socket [
      | none ↦ (none, [])
      | some fd ↦
          (if a.connect then (some fd, opened fd ∷ []) else (none, opened fd ∷ closed fd ∷ []))
    ])

-- The loop over `send` with `n` rounds left; `sent` is what each round sends, 0 where it fails.
unfoldable pub send_loop : (sent : ℕ → ℕ) → (n num : ℕ) → ℕ
send_loop sent zero num = num
send_loop sent (suc n) num =
    let more = send_loop sent n ((num + sent n) % 2 ^ 64) in if sent n == 0 then num else more

-- `main` behind the call of `vsock_connect`: the exit code, the total that is printed, and the acts.
unfoldable pub send_all : Option ℕ × List Act → (ℕ → ℕ) → ℕ × Option ℕ × List Act
unfolding send_loop
send_all (none, acts) sent = (1, none, acts)
send_all (some s, acts) sent = (0, some (send_loop sent datas 0), acts ++ closed s ∷ [])

-- `args` are the cid and the port.
unfoldable pub main :
    (strtol : List ℕ → ℤ × ℕ)
    → Option (List ℕ × List ℕ)
    → Answers
    → (ℕ → ℕ)
    → ℕ × Option ℕ × List Act
unfolding parse_port vsock_connect send_all
main strtol none a sent = (1, none, [])
main strtol (some (cid, port)) a sent =
    send_all (vsock_connect (parse_cid strtol cid) (parse_port strtol port) a) sent

send_loop-bound :
    (sent : ℕ → ℕ) (n num k : ℕ)
    → ((i : ℕ) → sent i ≤ max_len)
    → num ≤ k * max_len
    → (k + n) * max_len < 2 ^ 64
    → send_loop sent n num ≤ (k + n) * max_len
unfolding send_loop
send_loop-bound sent zero num k h b w = omega arith
send_loop-bound sent (suc n) num k h b w = elim (Bool-cases (sent n == 0)) [
  | inl stopped ↦ rw stopped (omega arith)
  | inr more ↦ rw more (
      omega (
        arith,
        send_loop-bound sent n ((num + sent n) % 2 ^ 64) (k + 1) h (omega (arith, h n))
            (omega arith),
      ))
]

-- What `vsock_connect` leaves open: the socket that it gives, or nothing.
abbrev pub Leaves : Option ℕ × List Act → Type 0
Leaves (none, acts) = behind acts [] ≡ []
Leaves (some fd, acts) = behind acts [] ≡ fd ∷ []

vsock_connect-Leaves : (cid port : ℤ) (a : Answers) → Leaves (vsock_connect cid port a)
unfolding vsock_connect
vsock_connect-Leaves cid port a =
    go (ltb_ℤ cid (pos 0)) refl (ltb_ℤ port (pos 0)) refl a.socket refl a.connect refl
  where
    go :
        (c : Bool)
        → ltb_ℤ cid (pos 0) ≡ c
        → (p : Bool) → ltb_ℤ port (pos 0) ≡ p
        → (s : Option ℕ) → a.socket ≡ s
        → (b : Bool) → a.connect ≡ b
        → Leaves (vsock_connect cid port a)
    go true e p f s g b i = rw (vsock_connect, e) refl
    go false e true f s g b i = rw (vsock_connect, e, f) refl
    go false e false f none g b i = rw (vsock_connect, e, f, g) refl
    go false e false f (some fd) g true i = rw (vsock_connect, e, f, g, i) refl
    go false e false f (some fd) g false i = rw (vsock_connect, e, f, g, i, ==_same fd) refl

-- How the program may end: the code, what is printed and what is left open.
abbrev pub Ends : ℕ × Option ℕ × List Act → Type 0
Ends (code, printed, acts) =
    (behind acts [] ≡ [])
    × (((code ≡ 1) × (printed ≡ none))
        ⊎ ((code ≡ 0) × ((num : ℕ) × (printed ≡ some num) × (num ≤ datas * max_len))))

send_all-Ends :
    (r : Option ℕ × List Act) (sent : ℕ → ℕ)
    → ((i : ℕ) → sent i ≤ max_len)
    → Leaves r
    → Ends (send_all r sent)
unfolding send_all
send_all-Ends (none, acts) sent h left = (left, inl (refl, refl))
send_all-Ends (some fd, acts) sent h left = (
  behind-append acts (closed fd ∷ []) [] ∙ rw (left, ==_same fd) refl,
  inr (
    refl,
    (send_loop sent datas 0, refl, send_loop-bound sent datas 0 0 h (omega arith) (omega arith)),
  ),
)

-- Whatever the arguments and the calls, where no send takes more than it is given: every socket that
-- was opened is closed. The total is printed exactly when the exit code is 0, and is at most 65536
-- for each of a million rounds, which does not wrap.
pub main-Ends :
    (strtol : List ℕ → ℤ × ℕ) (args : Option (List ℕ × List ℕ)) (a : Answers) (sent : ℕ → ℕ)
    → ((i : ℕ) → sent i ≤ max_len)
    → Ends (main strtol args a sent)
unfolding main
main-Ends strtol none a sent h = (refl, inl (refl, refl))
main-Ends strtol (some (cid, port)) a sent h =
    send_all-Ends (vsock_connect (parse_cid strtol cid) (parse_port strtol port) a) sent h
      (vsock_connect-Leaves (parse_port strtol cid) (parse_port strtol port) a)
