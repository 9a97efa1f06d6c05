-- ===== src/Fileview/Seek.antt =====
-- The address editor of fileview.c: the loop that reads keys into `inbuf`, and the position that
-- the typed address stands for.
pub mod Edits
pub mod Address
use linux_summary.Base.{
  ℕ, zero, suc, ◌+◌, ◌-◌, ◌%◌, ◌^◌, Bool, true, false, ◌&&◌, ◌||◌, Option, none, some, List, [],
  ◌∷◌, ltb, ◌==◌, if◌then◌else◌, set, replicate,
}
use linux_summary.Base.Int.{ℤ, signed64, clear_low4}
use linux_summary.Base.Strto.{c_string, strtoull16}
use linux_summary.Fileview.Keys.{kb_quit, kb_back, kb_left, kb_del}

-- What a key does to the loop: `stop` breaks out of it with this `inbuf`, `next` goes on with this
-- `inbuf` and this `i`.
pub data Verdict : Type 0 where
  stop : List ℕ → Verdict
  next : List ℕ → ℕ → Verdict

-- `char inbuf[16] = {0}`
abbrev pub blank : List ℕ
blank = replicate 16 0

-- The arrow and the delete key count as backspace.
unfoldable pub as_back : ℕ → ℕ
as_back c = if (c == kb_left) || (c == kb_del) then kb_back else c

-- `inbuf[i++] = ch`, unless the character cannot be shown.
unfoldable pub put_char : ℕ → List ℕ → ℕ → Verdict
put_char c b i = if ltb c 0x20 || ltb 0x7E c then next b i else next (set b i c) (i + 1)

-- `inbuf[--i] = 0`, where there is a character to take back; then the test that follows it.
unfoldable pub edit_char : ℕ → List ℕ → ℕ → Verdict
unfolding put_char
edit_char c b i =
    if (c == kb_back) && ltb 0 i then put_char c (set b (i - 1) 0) (i - 1) else put_char c b i

-- One round of the loop, for a key that the mask has passed.
unfoldable pub seek_key : ℕ → List ℕ → ℕ → Verdict
unfolding as_back edit_char
seek_key c b i =
    if c == b'\n'
    then stop b
    else (if c == kb_quit then stop (set b 0 0) else edit_char (as_back c) b i)

-- `while (i < 15)` over the keys to come; `none` while it waits for another key.
unfoldable pub seek_loop : List ℕ → List ℕ → ℕ → Option (List ℕ × List ℕ)
unfolding seek_key
seek_loop [] b i = if ltb i 15 then none else some (b, [])
seek_loop (key ∷ keys) b i =
    if ltb i 15
    then elim (seek_key (key % 2 ^ 24) b i) [
      | stop b' ↦ some (b', keys)
      | next b' j ↦ seek_loop keys b' j
    ]
    else some (b, key ∷ keys)

-- `strtoull(inbuf, NULL, 16)`, cast to `long long` and aligned to a paragraph.
unfoldable pub address : List ℕ → ℤ
unfolding c_string strtoull16
address b = clear_low4 (signed64 (strtoull16 (c_string b)))
