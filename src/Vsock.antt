-- ===== src/Vsock.antt =====
-- The programs src/linux/socket/vsock/vsock_server.c and vsock_client.c: their arguments, and the
-- sockets that they open and close.
pub mod Server
pub mod Client
pub mod Pair
mod Tests
use linux_summary.Base.{
  true, refl, ◌≡◌, ◌++◌, arith, ℕ, ◌-◌, ◌%◌, ◌^◌, List, [], ◌∷◌, ◌&&◌, not, ◌==◌, if◌then◌else◌,
  length,
}
use linux_summary.Base.Int.{ℤ, pos, negsuc, signed32}

-- A `long` returned as an `int`.
abbrev pub to_int : ℤ → ℤ
to_int (pos n) = signed32 (n % 2 ^ 32)
to_int (negsuc n) = signed32 (2 ^ 32 - 1 - n % 2 ^ 32)

-- `parse_port` and `parse_cid`. `strtol` gives the number and how many characters it has read.
unfoldable pub parse_port : (strtol : List ℕ → ℤ × ℕ) → List ℕ → ℤ
parse_port strtol text =
    let (n, end) = strtol text in
    if not (end == 0) && (end == length text) then to_int n else negsuc 0

pub data Act : Type 0 where
  opened closed : (fd : ℕ) → Act

abbrev pub remove : ℕ → List ℕ → List ℕ
remove fd [] = []
remove fd (x ∷ xs) = if x == fd then xs else x ∷ remove fd xs

-- The sockets that are open behind a sequence of acts.
abbrev pub behind : List Act → List ℕ → List ℕ
behind [] fds = fds
behind (opened fd ∷ acts) fds = behind acts (fd ∷ fds)
behind (closed fd ∷ acts) fds = behind acts (remove fd fds)

pub behind-append :
    (acts more : List Act) (fds : List ℕ)
    → behind (acts ++ more) fds ≡ behind more (behind acts fds)
behind-append [] more fds = refl
behind-append (opened fd ∷ acts) more fds = behind-append acts more (fd ∷ fds)
behind-append (closed fd ∷ acts) more fds = behind-append acts more (remove fd fds)

pub ==_same : (n : ℕ) → (n == n) ≡ true
==_same n = ground arith
