-- ===== src/Zpage/Buffer.antt =====
-- How zpage.c fills `mmap_data`: text by `snprintf`, and bytes of a mapped page.
use native.Mathlib.Nat.{zero-add, suc-add}
use linux_summary.Base.{
  map, length-drop, length-set, ℕ, zero, suc, ◌+◌, ◌-◌, ◌≤◌, ◌<◌, ◌≡◌, refl, ap, sym, ◌∙◌, List, [],
  ◌∷◌, ◌++◌, ltb, leb, lt→leb, if◌then◌else◌, length, take, drop, set, arith, drop-nil,
  length-append, append-nil, append_assoc, take-length_le, lt→ltb, le→ltb, Bool-cases, inl, inr,
}
use linux_summary.Base.Text.{codes, digits}
use linux_summary.Zpage.{Run, done, beyond_page, beyond_buffer, mmap_len, page_size}

-- `xs` over the bytes of `b` from `i` on.
abbrev pub write_at : List ℕ → ℕ → List ℕ → List ℕ
write_at b zero xs = xs ++ drop (length xs) b
write_at [] (suc i) xs = []
write_at (x ∷ b) (suc i) xs = x ∷ write_at b i xs

-- `snprintf(mmap_data + r, MMAP_LEN - r, ...)` with r ≤ MMAP_LEN: the text as far as it fits, and a
-- zero behind it.
unfoldable pub append_text : List ℕ → ℕ → List ℕ → List ℕ
append_text b r text =
    if ltb r mmap_len then write_at b r (take (mmap_len - r - 1) text ++ 0 ∷ []) else b

-- `*(char *)(mmap_data + r) = '\0'`
unfoldable pub terminate : List ℕ → ℕ → Run (List ℕ × ℕ)
terminate b r = if ltb r mmap_len then done (write_at b r (0 ∷ []), r) else beyond_buffer

-- One `snprintf` after another, each behind the length that the others returned, then the zero. From
-- a length above MMAP_LEN the next one stands behind the buffer, and `MMAP_LEN - r` is negative.
unfoldable pub append_lines : List (List ℕ) → List ℕ → ℕ → Run (List ℕ × ℕ)
unfolding append_text terminate
append_lines [] b r = terminate b r
append_lines (t ∷ ts) b r =
    let rest = append_lines ts (append_text b r t) (r + length t) in
    if ltb mmap_len r then beyond_buffer else rest

-- `*(char *)(buf + i) = *(char *)(p + offset + i)`, n times.
unfoldable pub copy_loop : (ℕ → ℕ) → (offset i n : ℕ) → List ℕ → Run (List ℕ)
copy_loop page offset i zero b = done b
copy_loop page offset i (suc n) b =
    let rest = copy_loop page (offset + 1) (i + 1) n (set b i (page offset)) in
    if leb page_size offset then beyond_page else (if leb mmap_len i then beyond_buffer else rest)

-- "0x%0x "
abbrev pub hex_byte : ℕ → List ℕ
hex_byte c = codes "0x" ++ (digits b'a' 16 16 c ++ b' ' ∷ [])

-- The loop of `task_get_args` over n bytes.
unfoldable pub args_loop : (ℕ → ℕ) → (offset n : ℕ) → List ℕ → ℕ → Run (List ℕ × ℕ)
unfolding append_text terminate
args_loop page offset zero b r = terminate b r
args_loop page offset (suc n) b r =
    let text = hex_byte (page offset) in
    let rest = args_loop page (offset + 1) n (append_text b r text) (r + length text) in
    if leb page_size offset then beyond_page else (if ltb mmap_len r then beyond_buffer else rest)

abbrev pub concat : List (List ℕ) → List ℕ
concat [] = []
concat (t ∷ ts) = t ++ concat ts

abbrev pub bytes_from : (ℕ → ℕ) → (offset n : ℕ) → List ℕ
bytes_from page offset zero = []
bytes_from page offset (suc n) = page offset ∷ bytes_from page (offset + 1) n

write_first :
    (t b ys : List ℕ) (y : ℕ)
    → length t ≤ length b
    → write_at (write_at b 0 (t ++ 0 ∷ [])) (length t) (y ∷ ys) ≡ write_at b 0 (t ++ y ∷ ys)
write_first [] [] ys y h = ap (λ l. y ∷ ys ++ l) (drop-nil (length ys))
write_first [] (x ∷ b) ys y h = refl
write_first (c ∷ t) [] ys y h = absurd (omega arith)
write_first (c ∷ t) (x ∷ b) ys y h = ap (λ l. c ∷ l) (write_first t b ys y (omega arith))

write_at-write_at :
    (r : ℕ) (t b ys : List ℕ) (y : ℕ)
    → r + length t ≤ length b
    → write_at (write_at b r (t ++ 0 ∷ [])) (r + length t) (y ∷ ys) ≡ write_at b r (t ++ y ∷ ys)
write_at-write_at zero t b ys y h = rw zero-add (write_first t b ys y (omega arith))
write_at-write_at (suc r) t [] ys y h = absurd (omega arith)
write_at-write_at (suc r) t (x ∷ b) ys y h =
    rw suc-add (ap (λ l. x ∷ l) (write_at-write_at r t b ys y (omega arith)))

write_at-join :
    (r : ℕ) (t b us : List ℕ)
    → r + length t ≤ length b
    → write_at (write_at b r (t ++ 0 ∷ [])) (r + length t) (us ++ 0 ∷ [])
      ≡ write_at b r ((t ++ us) ++ 0 ∷ [])
write_at-join r t b [] h = rw append-nil (write_at-write_at r t b [] 0 h)
write_at-join r t b (y ∷ ys) h = rw append_assoc (write_at-write_at r t b (ys ++ 0 ∷ []) y h)

write_at-nil : (b : List ℕ) (i : ℕ) → write_at b i [] ≡ b
write_at-nil b zero = refl
write_at-nil [] (suc i) = refl
write_at-nil (x ∷ b) (suc i) = ap (λ l. x ∷ l) (write_at-nil b i)

pub length-write_at :
    (b : List ℕ) (i : ℕ) (xs : List ℕ)
    → i + length xs ≤ length b
    → length (write_at b i xs) ≡ length b
length-write_at b zero xs h =
    omega (arith, length-append xs (drop (length xs) b), length-drop (length xs) b)
length-write_at [] (suc i) xs h = absurd (omega arith)
length-write_at (x ∷ b) (suc i) xs h = ap suc (length-write_at b i xs (omega arith))

set-write_at :
    (b : List ℕ) (i x : ℕ) (xs : List ℕ)
    → i < length b
    → write_at (set b i x) (i + 1) xs ≡ write_at b i (x ∷ xs)
set-write_at [] i x xs h = absurd (omega arith)
set-write_at (y ∷ b) zero x xs h = refl
set-write_at (y ∷ b) (suc i) x xs h =
    rw suc-add (ap (λ l. y ∷ l) (set-write_at b i x xs (omega arith)))

-- A text that fits with its zero is written whole.
append_text_fits :
    (b : List ℕ) (r : ℕ) (text : List ℕ)
    → r + length text < mmap_len
    → append_text b r text ≡ write_at b r (text ++ 0 ∷ [])
unfolding append_text
append_text_fits b r text h =
    rw (lt→ltb r mmap_len (omega arith), take-length_le (mmap_len - r - 1) text (omega arith)) refl

-- Texts that fit stand in the buffer one behind the other, with a zero behind them, and the
-- length is theirs.
pub append_lines_fit :
    (ts : List (List ℕ)) (b : List ℕ) (r : ℕ)
    → length b ≡ mmap_len
    → r + length (concat ts) < mmap_len
    → append_lines ts b r ≡ done (write_at b r (concat ts ++ 0 ∷ []), r + length (concat ts))
unfolding append_lines terminate
append_lines_fit [] b r len h =
    rw (lt→ltb r mmap_len (omega arith)) (ap (λ n. done (write_at b r (0 ∷ []), n)) (omega arith))
append_lines_fit (t ∷ ts) b r len h =
    let both = length-append t (concat ts) in
    let whole = length-append t (0 ∷ []) in
    let kept = length-write_at b r (t ++ 0 ∷ []) (omega (arith, whole, both)) in
    let rest =
      append_lines_fit ts (write_at b r (t ++ 0 ∷ [])) (r + length t) (kept ∙ len)
        (omega (arith, both)) in
    rw
      (
        le→ltb mmap_len r (omega arith),
        append_text_fits b r t (omega (arith, both)),
        rest,
        write_at-join r t b (concat ts) (omega (arith, both)),
      )
      (ap (λ n. done (write_at b r ((t ++ concat ts) ++ 0 ∷ []), n)) (omega (arith, both)))

-- Texts that do not fit leave the buffer.
pub append_lines_overflow :
    (ts : List (List ℕ)) (b : List ℕ) (r : ℕ)
    → mmap_len ≤ r + length (concat ts)
    → append_lines ts b r ≡ beyond_buffer
unfolding append_lines terminate
append_lines_overflow [] b r h = rw (le→ltb r mmap_len (omega arith)) refl
append_lines_overflow (t ∷ ts) b r h = elim (Bool-cases (ltb mmap_len r)) [
  | inl out ↦ rw out refl
  | inr inside ↦ rw inside (
      append_lines_overflow ts (append_text b r t) (r + length t)
        (omega (arith, length-append t (concat ts))))
]

-- The bytes copied, up to the end of the page. The page ends before the buffer does.
pub copy_loop-write_at :
    (page : ℕ → ℕ) (offset i n : ℕ) (b : List ℕ)
    → length b ≡ mmap_len
    → i ≤ offset
    → offset + n ≤ page_size
    → copy_loop page offset i n b ≡ done (write_at b i (bytes_from page offset n))
unfolding copy_loop
copy_loop-write_at page offset i zero b len le h = ap done (sym (write_at-nil b i))
copy_loop-write_at page offset i (suc n) b len le h =
    rw
      (
        lt→leb page_size offset (omega arith),
        lt→leb mmap_len i (omega arith),
        copy_loop-write_at page (offset + 1) (i + 1) n (set b i (page offset))
            (length-set b i (page offset) ∙ len) (omega arith) (omega arith),
      )
      (ap done (set-write_at b i (page offset) (bytes_from page (offset + 1) n) (omega arith)))

pub copy_loop_beyond :
    (page : ℕ → ℕ) (offset i n : ℕ) (b : List ℕ)
    → i ≤ offset
    → page_size < offset + n
    → offset ≤ page_size
    → copy_loop page offset i n b ≡ beyond_page
unfolding copy_loop
copy_loop_beyond page offset i zero b le h in_page = absurd (omega arith)
copy_loop_beyond page offset i (suc n) b le h in_page = elim (Bool-cases (leb page_size offset)) [
  | inl out ↦ rw out refl
  | inr inside ↦
      ground (arith, copy_loop_beyond page (offset + 1) (i + 1) n (set b i (page offset)))
]

-- While the bytes are in the page, the loop over them is a sequence of texts.
pub args_loop-append_lines :
    (page : ℕ → ℕ) (offset n : ℕ) (b : List ℕ) (r : ℕ)
    → offset + n ≤ page_size
    → args_loop page offset n b r ≡ append_lines (map hex_byte (bytes_from page offset n)) b r
unfolding args_loop append_lines
args_loop-append_lines page offset zero b r h = refl
args_loop-append_lines page offset (suc n) b r h =
    let text = hex_byte (page offset) in
    rw
      (
        lt→leb page_size offset (omega arith),
        args_loop-append_lines page (offset + 1) n (append_text b r text) (r + length text)
            (omega arith),
      )
      refl
