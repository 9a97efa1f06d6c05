-- ===== src/Tcp/Tests.antt =====
-- The theorems on the TCP programs at concrete runs.
use mathlib.Core.Path.{subst}
use linux_summary.Base.{
  ◌+◌, ℕ, zero, suc, ◌-◌, ◌≤◌, ◌<◌, min, ltb, ◌≡◌, ◌≢◌, refl, true, false, none, some, [], ◌∷◌, map,
  if◌then◌else◌, arith,
}
use linux_summary.Base.Int.{ℤ, pos, negsuc, pos_part}
use linux_summary.Tcp.{wire_port, port}
use linux_summary.Tcp.Server.{
  max_len, Server, Run, running, exited, Event, accepted, closing, set_up, handle_all, handle,
  accept_from, use_fd, do_use_fd,
}
use linux_summary.Tcp.Sockets.{
  IsServer, IsBatch, Fresh, Holds, Reaches, start, wakes, reached-IsServer,
}
use linux_summary.Tcp.Streams.{after, first, and_then, handle_all-last, watched, IsStream}
use linux_summary.Tcp.Served.{stream-served}
use linux_summary.Tcp.Totals.{reported, stream-total}
use linux_summary.Tcp.Speed.{datas, bytes_taken, sum, client, server, client-server}

-- The port that the programs use is not the one that they name.
wire_port-test : wire_port port ≡ 2842
wire_port-test = refl

abbrev listening : Server
listening = record {
  epollfd = 3;
  listen_sock = 4;
  opened = 4 ∷ 3 ∷ [];
  registered = 4 ∷ [];
  out = [];
}

abbrev incoming : ℕ → Event
incoming fd = record { fd = 4; accept = some fd; adds = true; recv = pos 0 }

abbrev readable : ℕ → ℤ → Event
readable fd n = record { fd = fd; accept = none; adds = true; recv = n }

abbrev served : Server
served = record listening {
  opened = 6 ∷ 4 ∷ 3 ∷ [];
  registered = 6 ∷ 4 ∷ [];
  out = accepted 5 ∷ closing 5 ∷ accepted 6 ∷ [];
}

two_rounds : Reaches listening served
unfolding handle_all handle accept_from use_fd do_use_fd
two_rounds =
    wakes (readable 5 (pos 0) ∷ incoming 6 ∷ [])
      (wakes (incoming 5 ∷ []) start (record { once = refl; watched = (refl, tt) })
        ((λ c e. ground arith), λ s' ran. refl) refl)
      (record { once = refl; watched = (refl, (refl, tt)) })
      (
        (λ c e. ground arith),
        λ s' ran.
            subst (Holds (Fresh (incoming 6 ∷ []))) ran ((λ c e. ground arith), λ s'' ran. refl),
      )
      refl

reached-IsServer_example : IsServer served
unfolding set_up
reached-IsServer_example = reached-IsServer 3 4 (omega arith) refl two_rounds

-- Two rounds of `send` succeed, and the third fails.
abbrev send : ℕ → ℤ
send i = if ltb 999997 i then pos 65536 else negsuc 0

send-bound : (i : ℕ) → pos_part (send i) ≤ 65536
send-bound i = ground arith

send-bytes_taken : sum (map suc (65535 ∷ 65535 ∷ [])) ≡ bytes_taken send datas
unfolding bytes_taken
send-bytes_taken = refl

client-server_example :
    (client (record { socket = some 3; connect = true; send = send })
      ≡ (0, some (bytes_taken send datas), []))
    × (server (record {
      socket = some 3;
      bind = true;
      listen = true;
      accept = some 4;
      recv = pos 65536 ∷ pos 65536 ∷ pos 0 ∷ [];
    })
        ≡ record { code = some 0; printed = some (bytes_taken send datas); opened = 4 ∷ 3 ∷ [] })
client-server_example =
    client-server send (65535 ∷ 65535 ∷ []) (pos 0) [] 3 3 4 send-bound send-bytes_taken refl

-- The socket 5 is connected, and its peer has sent 20000 bytes. Behind the end of the stream,
-- `accept` fails.
abbrev connected : Server
connected = record listening { opened = 5 ∷ 4 ∷ 3 ∷ []; registered = 5 ∷ 4 ∷ [] }

abbrev events : ℕ → Event
events zero = readable 5 (pos 10240)
events (suc zero) = readable 5 (pos 9760)
events (suc (suc zero)) = readable 5 (pos 0)
events (suc (suc (suc k))) = readable 4 (pos 0)

abbrev left : ℕ → ℕ
left zero = 20000
left (suc zero) = 9760
left (suc (suc k)) = 0

abbrev IsExited : Run → Type 0
IsExited (running s) = true ≡ false
IsExited (exited s) = s ≡ s

and_then-IsExited : (r : Run) (f : Server → Run) → IsExited r → IsExited (and_then r f)
and_then-IsExited (running s) f h = absurd (ground (arith, h))
and_then-IsExited (exited s) f h = refl

after-IsExited : (k : ℕ) → IsExited (after events connected (suc (suc (suc (suc k)))))
unfolding handle_all handle accept_from use_fd do_use_fd
after-IsExited zero = refl
after-IsExited (suc k) =
    rw
      (handle_all-last (first events (suc (suc (suc (suc k))))) (events (suc (suc (suc (suc k)))))
        connected)
      (and_then-IsExited (after events connected (suc (suc (suc (suc k)))))
        (handle (events (suc (suc (suc (suc k)))))) (after-IsExited k))

-- The server goes on only up to the third event.
after-Holds :
    (P : ℕ → Server → Type 0)
    → ((k : ℕ) → k < 4 → Holds (P k) (after events connected k))
    → (k : ℕ) (s' : Server) → after events connected k ≡ running s'
    → P k s'
after-Holds P h zero s' ran = subst (Holds (P 0)) ran (h 0 (omega arith))
after-Holds P h (suc zero) s' ran = subst (Holds (P 1)) ran (h 1 (omega arith))
after-Holds P h (suc (suc zero)) s' ran = subst (Holds (P 2)) ran (h 2 (omega arith))
after-Holds P h (suc (suc (suc zero))) s' ran = subst (Holds (P 3)) ran (h 3 (omega arith))
after-Holds P h (suc (suc (suc (suc k)))) s' ran =
    let false_true : true ≡ false = subst IsExited ran (after-IsExited k) in
    absurd (ground (arith, false_true))

events-IsBatch : (k : ℕ) → k < 4 → Holds (IsBatch (events k ∷ [])) (after events connected k)
unfolding handle_all handle accept_from use_fd do_use_fd
events-IsBatch zero h = record { once = refl; watched = (refl, tt) }
events-IsBatch (suc zero) h = record { once = refl; watched = (refl, tt) }
events-IsBatch (suc (suc zero)) h = record { once = refl; watched = (refl, tt) }
events-IsBatch (suc (suc (suc zero))) h = record { once = refl; watched = (refl, tt) }
events-IsBatch (suc (suc (suc (suc k)))) h = absurd (omega (arith, h))

events-Fresh : (k : ℕ) (s' : Server) → Fresh (events k ∷ []) s'
events-Fresh zero s' = ((λ c e. ground arith), λ s'' ran. refl)
events-Fresh (suc zero) s' = ((λ c e. ground arith), λ s'' ran. refl)
events-Fresh (suc (suc zero)) s' = ((λ c e. ground arith), λ s'' ran. refl)
events-Fresh (suc (suc (suc k))) s' = ((λ c e. ground arith), λ s'' ran. refl)

events-reads : (k : ℕ) → (events k).fd ≡ 5 → (events k).recv ≡ pos (min max_len (left k))
events-reads zero h = refl
events-reads (suc zero) h = refl
events-reads (suc (suc zero)) h = refl
events-reads (suc (suc (suc k))) h = absurd (omega (arith, h))

left-taken : (k : ℕ) → (events k).fd ≡ 5 → left (suc k) ≡ left k - max_len
left-taken zero h = refl
left-taken (suc zero) h = refl
left-taken (suc (suc zero)) h = refl
left-taken (suc (suc (suc k))) h = absurd (omega (arith, h))

left-kept : (k : ℕ) → (events k).fd ≢ 5 → left (suc k) ≡ left k
left-kept zero h = absurd (h refl)
left-kept (suc zero) h = absurd (h refl)
left-kept (suc (suc zero)) h = refl
left-kept (suc (suc (suc k))) h = refl

events-again :
    (k : ℕ) → watched 5 (after events connected k) ≡ true → (j : ℕ) × (k ≤ j) × ((events j).fd ≡ 5)
unfolding handle_all handle accept_from use_fd do_use_fd
events-again zero h = (0, omega arith, refl)
events-again (suc zero) h = (1, omega arith, refl)
events-again (suc (suc zero)) h = (2, omega arith, refl)
events-again (suc (suc (suc zero))) h = absurd (ground (arith, h))
events-again (suc (suc (suc (suc k)))) h =
    go (after events connected (suc (suc (suc (suc k))))) h (after-IsExited k)
  where
    go :
        (r : Run)
        → watched 5 r ≡ true
        → IsExited r
        → (j : ℕ) × (suc (suc (suc (suc k))) ≤ j) × ((events j).fd ≡ 5)
    go (running s) h e = absurd (ground (arith, e))
    go (exited s) h e = absurd (ground (arith, h))

events-IsStream : IsStream events connected 5 left
events-IsStream = record {
  batch = after-Holds (λ k. IsBatch (events k ∷ [])) events-IsBatch;
  fresh = λ k s' ran. events-Fresh k s';
  reads = events-reads;
  taken = left-taken;
  kept = left-kept;
  again = events-again;
}

stream-total_example : Holds (λ s'. reported 5 s'.out + left 2 ≡ left 0) (after events connected 2)
stream-total_example =
    stream-total (record { opens = refl; once = refl; listens = refl }) (omega arith)
      events-IsStream refl 2

stream-served_example :
    (m : ℕ) × (watched 5 (after events connected m) ≡ false)
    × Holds (λ s'. reported 5 s'.out ≡ 20000) (after events connected m)
stream-served_example =
    stream-served (record { opens = refl; once = refl; listens = refl }) (omega arith)
      events-IsStream refl refl
