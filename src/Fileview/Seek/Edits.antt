-- ===== src/Fileview/Seek/Edits.antt =====
-- The address editor against a plain description of line editing.
use linux_summary.Base.{
  ℕ, zero, suc, ◌-◌, ◌%◌, ◌^◌, ◌<◌, ◌≤◌, ◌≡◌, refl, ap, ◌∙◌, ltb→lt, All-append, Bool, ◌||◌, Option,
  none, some, List, [], ◌∷◌, ◌++◌, ltb, ◌==◌, if◌then◌else◌, set, replicate, length, length-append,
  arith, Bool-cases, inl, inr, All, append_assoc,
}
use linux_summary.Base.Strto.{c_string}
use linux_summary.Base.Text.{Printable}
use linux_summary.Fileview.Keys.{kb_quit, kb_back, kb_left, kb_del}
use linux_summary.Fileview.Seek.{Verdict, stop, next, seek_key, seek_loop, blank}

-- What is typed so far, last character first.
abbrev pub Typed : Type 0
Typed = List ℕ

abbrev pub rev : List ℕ → List ℕ
rev [] = []
rev (c ∷ cs) = rev cs ++ (c ∷ [])

pub length-rev : (cs : List ℕ) → length (rev cs) ≡ length cs
length-rev [] = refl
length-rev (c ∷ cs) = omega (arith, length-append (rev cs) (c ∷ []), length-rev cs)

-- What a key does to the typed text: it ends the editing, or goes on with another text.
pub data Edit : Type 0 where
  finished : Typed → Edit
  cancelled : Edit
  editing : Typed → Edit

abbrev pub tail : List ℕ → List ℕ
tail [] = []
tail (c ∷ cs) = cs

is_back : ℕ → Bool
is_back c = (c == kb_left) || (c == kb_del) || (c == kb_back)

-- Line editing: Enter ends it, Escape cancels it, a backspace takes the last character back, a
-- printable character is appended, and any other key does nothing.
unfoldable pub edit : ℕ → Typed → Edit
unfolding is_back
edit c t =
    if c == b'\n'
    then finished t
    else (if c == kb_quit
        then cancelled
        else (if is_back c
            then editing (tail t)
            else (if ltb c 0x20 || ltb 0x7E c then editing t else editing (c ∷ t))))

-- The whole of it: at most fifteen characters.
unfoldable pub edits : List ℕ → Typed → Option (Option (List ℕ) × List ℕ)
unfolding edit
edits [] t = if ltb (length t) 15 then none else some (some (rev t), [])
edits (key ∷ keys) t =
    if ltb (length t) 15
    then elim (edit (key % 2 ^ 24) t) [
      | finished t' ↦ some (some (rev t'), keys)
      | cancelled ↦ some (none, keys)
      | editing t' ↦ edits keys t'
    ]
    else some (some (rev t), key ∷ keys)

-- The sixteen bytes of `inbuf` for a text: the text, and zeros.
abbrev pub inbuf_of : Typed → List ℕ
inbuf_of t = rev t ++ replicate (16 - length t) 0

set-append : (xs ys : List ℕ) (v : ℕ) → set (xs ++ ys) (length xs) v ≡ xs ++ set ys 0 v
set-append [] ys v = refl
set-append (x ∷ xs) ys v = ap (λ t. x ∷ t) (set-append xs ys v)

set-replicate : (n c : ℕ) → 0 < n → set (replicate n 0) 0 c ≡ c ∷ replicate (n - 1) 0
set-replicate zero c h = absurd (omega arith)
set-replicate (suc n) c h = ap (λ k. c ∷ replicate k 0) (omega arith)

inbuf-put : (c : ℕ) (t : Typed) → length t < 16 → set (inbuf_of t) (length t) c ≡ inbuf_of (c ∷ t)
inbuf-put c t h = rw (← length-rev t) (
    rw (set-append (rev t) (replicate (16 - length (rev t)) 0) c) (
      rw (set-replicate (16 - length (rev t)) c (omega (arith, length-rev t)))
        (rw (append_assoc) (ap (λ k. rev t ++ c ∷ replicate k 0) (omega (arith, length-rev t))))))

replicate-suc : (n : ℕ) → 0 < n → ◌≡◌ {A = List ℕ} (0 ∷ replicate (n - 1) 0) (replicate n 0)
replicate-suc zero h = absurd (omega arith)
replicate-suc (suc n) h = ap (λ k. 0 ∷ replicate k 0) (omega arith)

inbuf-back : (c : ℕ) (t : Typed) → length t < 16 → set (inbuf_of (c ∷ t)) (length t) 0 ≡ inbuf_of t
inbuf-back c t h = rw (append_assoc) (
    rw (← length-rev t) (
      rw (set-append (rev t) (c ∷ replicate (16 - suc (length (rev t))) 0) 0) (
        ap (λ k. rev t ++ k)
          (ap (λ k. 0 ∷ replicate k 0) (omega arith)
            ∙ replicate-suc (16 - length (rev t)) (omega (arith, length-rev t))))))

-- What `seek_key` answers for an edit of the text `t`.
abbrev verdict_of : Typed → Edit → Verdict
verdict_of t (finished t') = stop (inbuf_of t')
verdict_of t cancelled = stop (set (inbuf_of t) 0 0)
verdict_of t (editing t') = next (inbuf_of t') (length t')

seek_key-edit :
    (c : ℕ) (t : Typed)
    → length t < 15
    → seek_key c (inbuf_of t) (length t) ≡ verdict_of t (edit c t)
unfolding seek_key edit
seek_key-edit c [] h = ground (arith, inbuf-put c [])
seek_key-edit c (x ∷ t) h = ground (arith, inbuf-put c (x ∷ t), inbuf-back x t)

abbrev CharsOf : Edit → Type 0
CharsOf (finished t) = All Printable t × (length t ≤ 15)
CharsOf cancelled = Unit
CharsOf (editing t) = All Printable t × (length t ≤ 15)

edit-CharsOf : (c : ℕ) (t : Typed) → All Printable t → length t < 15 → CharsOf (edit c t)
unfolding edit
edit-CharsOf c [] h k = ground arith
edit-CharsOf c (x ∷ t) h k = ground arith

c_string-append : (xs ys : List ℕ) → All Printable xs → c_string (xs ++ 0 ∷ ys) ≡ xs
unfolding c_string
c_string-append [] ys h = refl
c_string-append (x ∷ xs) ys h = ground (arith, c_string-append xs ys h.1)

All-rev : (t : Typed) → All Printable t → All Printable (rev t)
All-rev [] h = tt
All-rev (c ∷ t) h = All-append Printable (rev t) (c ∷ []) (All-rev t h.1) (h.0, tt)

c_string-inbuf_of : (t : Typed) → All Printable t → length t ≤ 15 → c_string (inbuf_of t) ≡ rev t
c_string-inbuf_of t h k =
    rw (← replicate-suc (16 - length t) (omega arith))
      (c_string-append (rev t) (replicate (16 - length t - 1) 0) (All-rev t h))

c_string-cancelled : (t : Typed) → length t ≤ 15 → c_string (set (inbuf_of t) 0 0) ≡ []
unfolding c_string
c_string-cancelled t k = set_zero (inbuf_of t)
  where
    set_zero : (b : List ℕ) → c_string (set b 0 0) ≡ []
    set_zero [] = refl
    set_zero (x ∷ b) = refl

-- What is left of the editor's answer when `inbuf` is read as a text.
abbrev pub read_out : Option (List ℕ × List ℕ) → Option (List ℕ × List ℕ)
read_out none = none
read_out (some (b, keys)) = some (c_string b, keys)

-- The text that the editing comes to: nothing where it was cancelled.
abbrev pub typed_out : Option (Option (List ℕ) × List ℕ) → Option (List ℕ × List ℕ)
typed_out none = none
typed_out (some (none, keys)) = some ([], keys)
typed_out (some (some text, keys)) = some (text, keys)

abbrev Agrees : List ℕ → Typed → Type 0
Agrees keys t = read_out (seek_loop keys (inbuf_of t) (length t)) ≡ typed_out (edits keys t)

after_edit :
    (keys : List ℕ) (t : Typed) (e : Edit)
    → ((t' : Typed) → All Printable t' → length t' ≤ 15 → Agrees keys t')
    → CharsOf e
    → length t ≤ 15
    → read_out
        (elim (verdict_of t e) [ stop b' ↦ some (b', keys) | next b' j ↦ seek_loop keys b' j ])
      ≡ typed_out (elim e [
        | finished t' ↦ some (some (rev t'), keys)
        | cancelled ↦ some (none, keys)
        | editing t' ↦ edits keys t'
      ])
after_edit keys t (finished t') rec (h, k) l = ap (λ s. some (s, keys)) (c_string-inbuf_of t' h k)
after_edit keys t cancelled rec h l = ap (λ s. some (s, keys)) (c_string-cancelled t l)
after_edit keys t (editing t') rec (h, k) l = rec t' h k

seek_loop-Agrees : (keys : List ℕ) (t : Typed) → All Printable t → length t ≤ 15 → Agrees keys t
unfolding seek_loop edits
seek_loop-Agrees [] t h k = elim (Bool-cases (ltb (length t) 15)) [
  | inl room ↦ rw room
  | inr full ↦ rw full (ap (λ s. some (s, [])) (c_string-inbuf_of t h k))
]
seek_loop-Agrees (key ∷ keys) t h k = elim (Bool-cases (ltb (length t) 15)) [
  | inl room ↦
      rw (room, seek_key-edit (key % 2 ^ 24) t (ltb→lt (length t) 15 room))
        (after_edit keys t (edit (key % 2 ^ 24) t) (seek_loop-Agrees keys)
          (edit-CharsOf (key % 2 ^ 24) t h (ltb→lt (length t) 15 room)) k)
  | inr full ↦ rw full (ap (λ s. some (s, key ∷ keys)) (c_string-inbuf_of t h k))
]

-- For every sequence of keys, the loop over `inbuf` and `i` reads the text, and leaves the keys,
-- that line editing of at most fifteen printable characters gives; after Escape the text is empty.
pub seek_loop-edits :
    (keys : List ℕ) → read_out (seek_loop keys blank 0) ≡ typed_out (edits keys [])
seek_loop-edits keys = seek_loop-Agrees keys [] tt (omega arith)
