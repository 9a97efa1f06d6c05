-- ===== src/Eventfd/Reader.antt =====
-- `thread_read` of foo.c.
use linux_summary.Base.{
  ℕ, ◌≤◌, ◌≡◌, refl, ap, sym, ◌∙◌, Bool, true, false, ◌&&◌, Option, none, some, List, [], ◌∷◌, ◌++◌,
  map, ltb, if◌then◌else◌, length, append_assoc, le→ltb,
}

abbrev pub max_events : ℕ
max_events = 10

-- What `epoll_wait` gives: a timeout, an error, or the descriptors that can be read, each with what
-- `read` then gives, `none` for an error.
pub data Wait : Type 0 where
  timeout error : Wait
  events : ℕ × Option ℕ → List (ℕ × Option ℕ) → Wait

pub data Line : Type 0 where
  read_count : (fd count : ℕ) → Line
  wait_timeout : Line

-- Whether the thread has ended, what it printed, and whether its epoll descriptor is open.
pub record Outcome : Type 0 where
  pub ended : Bool
  pub lines : List Line
  pub epoll_open : Bool

-- `for (n=0; n<nfds; n++)`: what is printed, and whether every read succeeds.
unfoldable pub read_events : List (ℕ × Option ℕ) → List Line × Bool
read_events [] = ([], true)
read_events ((fd, none) ∷ es) = ([], false)
read_events ((fd, some count) ∷ es) =
    let (lines, all) = read_events es in (read_count fd count ∷ lines, all)

abbrev pub behind_lines : List Line → Outcome → Outcome
behind_lines lines o = record o { lines = lines ++ o.lines }

-- `while (1)` over the answers to come.
unfoldable pub read_loop : List Wait → Outcome
unfolding read_events
read_loop [] = record { ended = false; lines = []; epoll_open = true }
read_loop (timeout ∷ waits) = record { ended = true; lines = wait_timeout ∷ []; epoll_open = false }
read_loop (error ∷ waits) = record { ended = true; lines = []; epoll_open = true }
read_loop (events e es ∷ waits) =
    let (lines, all) = read_events (e ∷ es) in
    let rest = behind_lines lines (read_loop waits) in
    if all then rest else record { ended = true; lines = lines; epoll_open = true }

-- Whether `epoll_ctl` adds every descriptor.
abbrev pub all_added : (ℕ → Bool) → List ℕ → Bool
all_added adds [] = true
all_added adds (fd ∷ fds) = adds fd && all_added adds fds

unfoldable pub thread_read : (create : Bool) → (adds : ℕ → Bool) → List ℕ → List Wait → Outcome
unfolding read_loop
thread_read create adds fds waits =
    if ltb max_events (length fds)
    then record { ended = true; lines = []; epoll_open = false }
    else (if create
        then (if all_added adds fds
            then read_loop waits
            else record { ended = true; lines = []; epoll_open = true })
        else record { ended = true; lines = []; epoll_open = false })

-- Counts that are read together, one at least.
abbrev pub good : ℕ × ℕ → ℕ × Option ℕ
good (fd, count) = (fd, some count)

abbrev pub batch : (ℕ × ℕ) × List (ℕ × ℕ) → Wait
batch (c, cs) = events (good c) (map good cs)

abbrev pub line_of : ℕ × ℕ → Line
line_of (fd, count) = read_count fd count

abbrev pub all_lines : List ((ℕ × ℕ) × List (ℕ × ℕ)) → List Line
all_lines [] = []
all_lines ((c, cs) ∷ rest) = map line_of (c ∷ cs) ++ all_lines rest

read_events-good : (cs : List (ℕ × ℕ)) → read_events (map good cs) ≡ (map line_of cs, true)
unfolding read_events
read_events-good [] = refl
read_events-good (c ∷ cs) = rw (read_events-good cs) refl

read_loop-batch :
    (c : ℕ × ℕ) (cs : List (ℕ × ℕ)) (waits : List Wait)
    → read_loop (batch (c, cs) ∷ waits) ≡ behind_lines (map line_of (c ∷ cs)) (read_loop waits)
unfolding read_loop
read_loop-batch c cs waits =
    ap
      (λ r.
        if r.1
        then behind_lines r.0 (read_loop waits)
        else record { ended = true; lines = r.0; epoll_open = true })
      (read_events-good (c ∷ cs))

read_loop-batches :
    (batches : List ((ℕ × ℕ) × List (ℕ × ℕ))) (waits : List Wait)
    → read_loop (map batch batches ++ waits) ≡ behind_lines (all_lines batches) (read_loop waits)
unfolding read_loop read_events
read_loop-batches [] waits = refl
read_loop-batches ((c, cs) ∷ batches) waits =
    read_loop-batch c cs (map batch batches ++ waits)
    ∙ ap (behind_lines (map line_of (c ∷ cs))) (read_loop-batches batches waits)
    ∙ ap (λ l. record (read_loop waits) { lines = l })
        (sym (append_assoc (map line_of (c ∷ cs)) (all_lines batches) (read_loop waits).lines))

-- With at most ten descriptors, all of them added: the thread prints every count that it reads, in
-- their order, until a timeout ends it, after which its epoll descriptor is closed; an error ends it
-- too, and leaves that descriptor open. What comes behind is not read.
pub thread_read-batches :
    (adds : ℕ → Bool) (fds : List ℕ) (batches : List ((ℕ × ℕ) × List (ℕ × ℕ))) (rest : List Wait)
    → length fds ≤ max_events
    → all_added adds fds ≡ true
    → (thread_read true adds fds (map batch batches ++ timeout ∷ rest) ≡ record {
      ended = true;
      lines = all_lines batches ++ wait_timeout ∷ [];
      epoll_open = false;
    })
      × (thread_read true adds fds (map batch batches ++ error ∷ rest)
          ≡ record { ended = true; lines = all_lines batches ++ []; epoll_open = true })
unfolding thread_read
thread_read-batches adds fds batches rest few added = (
  rw
      (
        thread_read,
        le→ltb max_events (length fds) few,
        added,
        read_loop-batches batches (timeout ∷ rest),
      )
      refl,
  rw
      (
        thread_read,
        le→ltb max_events (length fds) few,
        added,
        read_loop-batches batches (error ∷ rest),
      )
      refl,
)
