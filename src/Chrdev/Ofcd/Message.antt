-- ===== src/Chrdev/Ofcd/Message.antt =====
-- The message of driver3/ofcd.c as a file of fixed size.
use linux_summary.Base.{
  ℕ, ◌≤◌, ◌<◌, ◌≡◌, refl, ap, ◌∙◌, none, some, List, [], ◌∷◌, ◌++◌, take, drop, length,
  length-append, length-drop, drop-append, arith, le→leb, zero, suc,
}
use linux_summary.Base.Int.{pos}
use linux_summary.Chrdev.{Copy, IsCopy}
use linux_summary.Chrdev.Ofcd.{Device, my_read, my_write}

take_less : (m : ℕ) (xs ys : List ℕ) → m ≤ length xs → take m (xs ++ ys) ≡ take m xs
take_less zero xs ys h = refl
take_less (suc m) [] ys h = absurd (omega arith)
take_less (suc m) (x ∷ xs) ys h = ap (λ t. x ∷ t) (take_less m xs ys (omega arith))

take-take : (m n : ℕ) (xs : List ℕ) → m ≤ n → take m (take n xs) ≡ take m xs
take-take zero n xs h = refl
take-take (suc m) zero xs h = absurd (omega arith)
take-take (suc m) (suc n) [] h = refl
take-take (suc m) (suc n) (x ∷ xs) h = ap (λ t. x ∷ t) (take-take m n xs (omega arith))

-- What a write has done.
pub record Wrote (user : List ℕ) (len : ℕ) (d d' : Device) : Type 0 where
  pub size : length d'.messages ≡ 256
  pub rest : drop len d'.messages ≡ drop len d.messages
  pub opens : d'.opens ≡ d.opens
  -- A later read of no more bytes hands them back.
  pub read_back : (n : ℕ) → n ≤ len → my_read d' 0 n ≡ some (pos n, take n user)

-- A write of at most 256 bytes that the copy brings over answers the count, changes nothing behind
-- the bytes written, and a read of no more bytes after it hands back the user's. A longer write
-- reaches outside the array.
pub my_write-my_read :
    (d : Device) (user : List ℕ) (len : ℕ) (copy : Copy)
    → length d.messages ≡ 256
    → len ≤ length user
    → IsCopy user len copy
    → copy.more ≡ 0
    → (len ≤ 256 → (d' : Device) × (my_write d copy len ≡ some (pos len, d')) × Wrote user len d d')
      × (256 < len → my_write d copy len ≡ none)
unfolding my_write my_read
my_write-my_read d user len copy full enough is all = (
  λ h.
      let d' : Device = record d { messages = copy.landed ++ drop len d.messages } in
      (
        d',
        ground arith,
        record {
          size = omega (
            arith,
            length-append copy.landed (drop len d.messages),
            length-drop len d.messages,
            is.filled,
          );
          rest = rw (← is.filled) (drop-append copy.landed (drop (length copy.landed) d.messages));
          opens = refl;
          read_back = λ n k. rw (le→leb n 256 (omega arith)) (
              ap (λ t. some (pos n, t))
                (take_less n copy.landed (drop len d.messages) (omega (arith, is.filled))
                  ∙ ap (take n) (is.exact all)
                  ∙ take-take n len user k));
        },
      ),
  λ h. ground arith,
)
