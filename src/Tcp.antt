-- ===== src/Tcp.antt =====
-- The programs src/linux/socket/tcp/ and src/linux/socket/tcp_speed/: servers and clients over TCP.
pub mod Server
pub mod Sockets
pub mod Streams
pub mod Totals
pub mod Served
pub mod Client
pub mod Speed
mod Tests
use linux_summary.Base.{
  ℕ, ◌≡◌, refl, ap, true, false, Bool, List, [], ◌∷◌, ◌++◌, ◌==◌, ◌||◌, ◌&&◌, not, ◌*◌, ◌/◌, ◌%◌,
  ◌+◌, if◌then◌else◌, Bool-cases, inl, inr, ◌≢◌, arith,
}

abbrev pub port : ℕ
port = 6667

-- The port on the wire for a number that is stored in `sin_port` as it is, on a little-endian
-- machine.
abbrev pub wire_port : ℕ → ℕ
wire_port n = n % 256 * 256 + n / 256

abbrev pub mem : ℕ → List ℕ → Bool
mem fd [] = false
mem fd (x ∷ xs) = (x == fd) || mem fd xs

-- No number is in the list twice.
abbrev pub distinct : List ℕ → Bool
distinct [] = true
distinct (x ∷ xs) = not (mem x xs) && distinct xs

abbrev pub remove : ℕ → List ℕ → List ℕ
remove fd [] = []
remove fd (x ∷ xs) = if x == fd then xs else x ∷ remove fd xs

pub mem-append : (x : ℕ) (xs ys : List ℕ) → mem x (xs ++ ys) ≡ (mem x xs || mem x ys)
mem-append x [] ys = refl
mem-append x (y ∷ xs) ys = ground (arith, mem-append x xs ys)

pub mem-remove_within : (y x : ℕ) (xs : List ℕ) → mem y xs ≡ false → mem y (remove x xs) ≡ false
mem-remove_within y x [] h = refl
mem-remove_within y x (z ∷ xs) h = ground (arith, mem-remove_within y x xs)

pub mem-remove_other : (y x : ℕ) (xs : List ℕ) → x ≢ y → mem y (remove x xs) ≡ mem y xs
mem-remove_other y x [] h = refl
mem-remove_other y x (z ∷ xs) h = ground (arith, mem-remove_other y x xs)

pub mem-remove_same : (x : ℕ) (xs : List ℕ) → distinct xs ≡ true → mem x (remove x xs) ≡ false
mem-remove_same x [] h = refl
mem-remove_same x (z ∷ xs) h = ground (arith, mem-remove_same x xs)

pub distinct-remove : (x : ℕ) (xs : List ℕ) → distinct xs ≡ true → distinct (remove x xs) ≡ true
distinct-remove x [] h = refl
distinct-remove x (z ∷ xs) h = ground (arith, distinct-remove x xs, mem-remove_within z x xs)

pub remove-append :
    (x : ℕ) (xs ys : List ℕ) → mem x xs ≡ true → remove x (xs ++ ys) ≡ remove x xs ++ ys
remove-append x [] ys h = ground arith
remove-append x (z ∷ xs) ys h = elim (Bool-cases (z == x)) [
  | inl same ↦ rw same refl
  | inr other ↦ rw other (ap (λ l. z ∷ l) (remove-append x xs ys (ground arith)))
]
