-- ===== src/Zpage/Region.antt =====
-- The bytes and words that zpage.c takes from a process.
use native.Mathlib.Nat.{zero-add}
use linux_summary.Base.{
  ℕ, zero, suc, ◌+◌, ◌-◌, ◌%◌, ◌^◌, ◌≤◌, ◌<◌, ◌≡◌, ◌≢◌, refl, ap, ◌∙◌, Option, none, some, List, [],
  ◌∷◌, ◌++◌, map, get_elem?, length, ◌==◌, if◌then◌else◌, arith, ◌⊎◌, le→ltb, lt→ltb, true,
}
use linux_summary.Base.Int.{ℤ, pos, signed32}
use linux_summary.Zpage.{done, and_then, beyond_page, Mm, Task, Device, mmap_len, page_size}
use linux_summary.Zpage.Walk.{walk_task_page, IsPaged, walk_task_page-same}
use linux_summary.Zpage.Buffer.{
  concat, write_at, bytes_from, hex_byte, copy_loop-write_at, copy_loop_beyond,
  args_loop-append_lines, append_lines_fit,
}
use linux_summary.Zpage.Ioctl.{
  span, copy_region, task_get_addr_region, task_get_args, load, store, exchange, get_addr_region,
  get_pid_addr, get_pid_args, my_ioctl,
}

-- The byte that a process has at an address.
abbrev pub user_byte : Mm → Device → ℕ → Option ℕ
user_byte mm d addr = elim (walk_task_page mm.tables addr) [
  | none ↦ none
  | some page ↦ some (d.frame page (addr % page_size))
]

pub get_elem?-bytes_from :
    (page : ℕ → ℕ) (o n i : ℕ) (rest : List ℕ)
    → i < n
    → get_elem? (bytes_from page o n ++ rest) i ≡ some (page (o + i))
get_elem?-bytes_from page o zero i rest h = absurd (omega arith)
get_elem?-bytes_from page o (suc n) zero rest h = ap (λ k. some (page k)) (omega arith)
get_elem?-bytes_from page o (suc n) (suc i) rest h =
    get_elem?-bytes_from page (o + 1) n i rest (omega arith) ∙ ap (λ k. some (page k)) (omega arith)

span_lem : (start end : ℕ) → start ≤ end → end < 2 ^ 64 → span start end ≡ end - start
unfolding span
span_lem start end h b = omega arith

pub addr_region_eq :
    (mm : Mm) (d : Device) (start end : ℕ)
    → start ≤ end
    → end < 2 ^ 64
    → end - start < 2 ^ 31
    → task_get_addr_region mm start end d
      ≡ copy_region mm start (end - start + 1) (pos (end - start)) d
unfolding task_get_addr_region
addr_region_eq mm d start end le big int =
    let low : signed32 ((end - start) % 2 ^ 32) ≡ pos (end - start) = ground arith in
    rw (span_lem start end le big, low) refl

pub copy_region_within :
    (mm : Mm) (d : Device) (start n page : ℕ) (r : ℤ)
    → length d.mmap_data ≡ mmap_len
    → walk_task_page mm.tables start ≡ some page
    → start % page_size + n ≤ page_size
    → copy_region mm start n r d
      ≡ done (
        r,
        record d {
          mmap_data = write_at d.mmap_data 0 (bytes_from (d.frame page) (start % page_size) n);
        },
      )
unfolding copy_region
copy_region_within mm d start n page r len walked h =
    rw
      (
        copy_region,
        walked,
        copy_loop-write_at (d.frame page) (start % page_size) 0 n d.mmap_data len (omega arith) h,
      )
      refl

copy_region_beyond :
    (mm : Mm) (d : Device) (start n page : ℕ) (r : ℤ)
    → walk_task_page mm.tables start ≡ some page
    → page_size < start % page_size + n
    → copy_region mm start n r d ≡ beyond_page
unfolding copy_region
copy_region_beyond mm d start n page r walked h =
    rw
      (
        copy_region,
        walked,
        copy_loop_beyond (d.frame page) (start % page_size) 0 n d.mmap_data (omega arith) h
            (omega arith),
      )
      refl

-- For a process with an `mm`, in a page that is there: if the bytes from `start` to `end`, both
-- included, are within one page, the result is their number less one and they stand at the front of
-- the buffer. If they are not, the copy leaves the page.
pub my_ioctl-region :
    (find : ℕ → Option Task) (pid : ℕ) (mm : Mm) (d : Device) (start end page : ℕ)
    → find pid ≡ some (record { mm = some mm })
    → IsPaged mm.tables
    → length d.mmap_data ≡ mmap_len
    → walk_task_page mm.tables start ≡ some page
    → start ≤ end
    → end < 2 ^ 64
    → end - start < 2 ^ 31
    → (start % page_size + (end - start) < page_size
        → (d' : Device) × (my_ioctl find (get_addr_region (some (pid, start, end))) d
            ≡ done (pos (end - start), d'))
          × ((i : ℕ) → i ≤ end - start → get_elem? d'.mmap_data i ≡ user_byte mm d (start + i)))
      × (page_size ≤ start % page_size + (end - start)
          → my_ioctl find (get_addr_region (some (pid, start, end))) d ≡ beyond_page)
unfolding my_ioctl
my_ioctl-region find pid mm d start end page found paged len walked le big int =
    let o = start % page_size in
    let n = end - start in
    (
      λ fits. (
        record d { mmap_data = write_at d.mmap_data 0 (bytes_from (d.frame page) o (n + 1)) },
        rw found (
            addr_region_eq mm d start end le big int
            ∙ copy_region_within mm d start (n + 1) page (pos n) len walked (omega arith)),
        λ i lt.
            rw (user_byte, walk_task_page-same paged (start + i) start (omega arith), walked)
              (get_elem?-bytes_from (d.frame page) o (n + 1) i _ (omega arith)
                ∙ ap (λ k. some (d.frame page k)) (omega arith)),
      ),
      λ crosses. rw found (
          addr_region_eq mm d start end le big int
          ∙ copy_region_beyond mm d start (n + 1) page (pos n) walked (omega arith)),
    )

-- For a process with an `mm`, whose arguments start in a page that is there: if they and the byte
-- behind them are within that page and their text is shorter than the buffer, the buffer shows
-- all of them and that byte, in base 16, and the result is the length of the text.
pub my_ioctl-args :
    (find : ℕ → Option Task) (pid : ℕ) (mm : Mm) (d : Device) (page : ℕ)
    → find pid ≡ some (record { mm = some mm })
    → length d.mmap_data ≡ mmap_len
    → walk_task_page mm.tables mm.arg_start ≡ some page
    → mm.arg_start ≤ mm.arg_end
    → mm.arg_end < 2 ^ 64
    → mm.arg_start % page_size + (mm.arg_end - mm.arg_start) < page_size
    → let o = mm.arg_start % page_size in
      let text =
        concat (map hex_byte (bytes_from (d.frame page) o (mm.arg_end - mm.arg_start + 1))) in
      length text < mmap_len
      → my_ioctl find (get_pid_args pid) d
        ≡ done (pos (length text), record d { mmap_data = write_at d.mmap_data 0 (text ++ 0 ∷ []) })
unfolding my_ioctl task_get_args
my_ioctl-args find pid mm d page found len walked le big fits short =
    let o = mm.arg_start % page_size in
    let n = mm.arg_end - mm.arg_start + 1 in
    rw
      (
        found,
        task_get_args,
        walked,
        span_lem mm.arg_start mm.arg_end le big,
        args_loop-append_lines (d.frame page) o n d.mmap_data 0 (omega arith),
        append_lines_fit (map hex_byte (bytes_from (d.frame page) o n)) d.mmap_data 0 len
            (omega arith),
        zero-add,
      )
      refl

pub load-store : (page : ℕ → ℕ) (o : ℕ) → load (store page o) o ≡ pos 0x12345678
unfolding load store
load-store page o = ground arith

store_elsewhere : (page : ℕ → ℕ) (o i : ℕ) → (i < o) ⊎ (o + 3 < i) → store page o i ≡ page i
unfolding store
store_elsewhere page o i h = ground arith

-- For a process with an `mm` and a page that is there: a word within its page is handed over, and
-- the next exchange at the address hands over 0x12345678. No other byte of any page changes, nor
-- does the buffer. A word that reaches into the next page leaves the page.
pub my_ioctl-exchange :
    (find : ℕ → Option Task) (pid : ℕ) (mm : Mm) (d : Device) (addr page : ℕ)
    → find pid ≡ some (record { mm = some mm })
    → walk_task_page mm.tables addr ≡ some page
    → let o = addr % page_size in
      let run = my_ioctl find (get_pid_addr (some (pid, addr))) in
      (o + 4 ≤ page_size
        → (d' : Device) × (run d ≡ done (load (d.frame page) o, d'))
          × (and_then (run d') (λ (r, d''). done r) ≡ done (pos 0x12345678))
          × (d'.mmap_data ≡ d.mmap_data)
          × ((q i : ℕ) → (q ≢ page) ⊎ (i < o) ⊎ (o + 3 < i) → d'.frame q i ≡ d.frame q i))
      × (page_size < o + 4 → run d ≡ beyond_page)
unfolding my_ioctl exchange
my_ioctl-exchange find pid mm d addr page found walked =
    let o = addr % page_size in
    (
      λ inside.
          let more = le→ltb (page_size - 4) o (omega arith) in
          let again : (page == page) ≡ true = ground arith in
          (
            record d { frame = λ q i. if q == page then store (d.frame page) o i else d.frame q i },
            rw (found, exchange, walked, more) refl,
            rw (found, exchange, walked, more, again)
                (ap (λ r. done r) (load-store (d.frame page) o)),
            refl,
            λ q i other. ground (arith, store_elsewhere (d.frame page) o i),
          ),
      λ crosses. rw (found, exchange, walked, lt→ltb (page_size - 4) o (omega arith)) refl,
    )
