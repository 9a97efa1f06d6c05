-- ===== src/Dram/Read.antt =====
-- Reads of dram.c against the physical memory as one array.
use native.Mathlib.Nat.{zero-add, suc-add, add-zero}
use linux_summary.Base.{
  ℕ, zero, suc, ◌+◌, ◌-◌, ◌*◌, ◌/◌, ◌%◌, ◌^◌, ◌≤◌, ◌<◌, ◌≡◌, ◌≢◌, refl, ap, ◌∙◌, sym, ap₂, min, All,
  List, [], ◌∷◌, ◌++◌, arith, leb, false, dec_lt,
}
use linux_summary.Base.Int.{pos, efault}
use linux_summary.Dram.{Dram, Reply, page_size, bytes_from, page_number, in_page, my_read}

-- The byte at a physical address.
abbrev pub byte_at : Dram → ℕ → ℕ
byte_at dram a = dram.frame (pos (a / page_size)) (a % page_size)

-- `n` bytes of physical memory from an address on.
abbrev pub memory : Dram → (a n : ℕ) → List ℕ
memory dram a zero = []
memory dram a (suc n) = byte_at dram a ∷ memory dram (a + 1) n

-- Within one page the mapped bytes are the physical memory.
bytes_from-memory :
    (dram : Dram) (q o n : ℕ)
    → o + n ≤ page_size
    → bytes_from (dram.frame (pos q)) o n ≡ memory dram (q * page_size + o) n
unfolding bytes_from
bytes_from-memory dram q o zero h = refl
bytes_from-memory dram q o (suc n) h =
    let page : (q * page_size + o) / page_size ≡ q = omega arith in
    let offset : (q * page_size + o) % page_size ≡ o = omega arith in
    ap₂ ◌∷◌ (ap₂ (λ k l. dram.frame (pos k) l) (sym page) (sym offset))
      (bytes_from-memory dram q (o + 1) n (omega arith) ∙ ap (λ a. memory dram a n) (omega arith))

memory-add :
    (dram : Dram) (a m n : ℕ) → memory dram a (m + n) ≡ memory dram a m ++ memory dram (a + m) n
memory-add dram a zero n = rw (zero-add, add-zero)
memory-add dram a (suc m) n = rw suc-add (
    ap (λ t. byte_at dram a ∷ t)
      (memory-add dram (a + 1) m n
        ∙ ap (λ b. memory dram (a + 1) m ++ memory dram b n) (omega arith)))

-- How many bytes a read at a position hands over.
abbrev pub portion : (count p : ℕ) → ℕ
portion count p = min count (page_size - p % page_size)

pub record Reads (dram : Dram) (count p : ℕ) (r : Reply) : Type 0 where
  pub ret : r.ret ≡ pos (portion count p)
  pub bytes : r.bytes ≡ memory dram p (portion count p)
  pub pos_after : r.pos_after ≡ p + portion count p

le_not_leb : (a b : ℕ) → b < a → leb a b ≡ false
le_not_leb a b h = ground arith

page_number_small : (p : ℕ) → p < 2 ^ 43 → page_number p ≡ pos (p / page_size)
unfolding page_number
page_number_small p h = ground arith

in_page-portion : (p count : ℕ) → count < 2 ^ 63 → in_page (p % page_size) count ≡ portion count p
unfolding in_page
in_page-portion p count h = ground arith

read_inside :
    (dram : Dram) (count p : ℕ)
    → dram.size ≤ 2 ^ 43
    → count < 2 ^ 63
    → p < dram.size
    → Reads dram count p (my_read dram 0 count p)
unfolding my_read
read_inside dram count p small c inside =
    let n = portion count p in
    rw
      (
        le_not_leb dram.size p inside,
        in_page-portion p count c,
        page_number_small p (omega arith),
        bytes_from-memory dram (p / page_size) (p % page_size) n (omega arith),
      )
      (record { ret = refl; bytes = ap (λ a. memory dram a n) (omega arith); pos_after = refl })

-- Up to a memory of 2 ^ 43 bytes and a count below 2 ^ 63: at or behind the end a read hands over
-- nothing. Before it, a read that copies everything hands over the bytes of the physical memory
-- from the position on, as many as are asked for but none behind the end of the page, and moves
-- the position by as many. A copy that fails leaves the position and says EFAULT.
pub my_read_lem :
    (dram : Dram) (more count p : ℕ)
    → dram.size ≤ 2 ^ 43
    → count < 2 ^ 63
    → (dram.size ≤ p
        → my_read dram more count p ≡ record { ret = pos 0; bytes = []; pos_after = p })
      × (p < dram.size → Reads dram count p (my_read dram 0 count p))
      × (p < dram.size
          → more ≢ 0
          → ((my_read dram more count p).ret ≡ efault)
            × ((my_read dram more count p).pos_after ≡ p))
unfolding my_read
my_read_lem dram more count p small c =
    (λ h. ground arith, read_inside dram count p small c, λ h ne. ground arith)

-- A sequence of reads, each at the position where the one before it ended: all that they hand over.
abbrev pub read_all : Dram → List ℕ → ℕ → List ℕ × ℕ
read_all dram [] p = ([], p)
read_all dram (count ∷ counts) p =
    let r = my_read dram 0 count p in
    let (bytes, q) = read_all dram counts r.pos_after in (r.bytes ++ bytes, q)

-- A read anywhere up to the end.
one_read :
    (dram : Dram) (count p : ℕ)
    → dram.size ≤ 2 ^ 43
    → dram.size % page_size ≡ 0
    → count < 2 ^ 63
    → p ≤ dram.size
    → (k : ℕ) × ((my_read dram 0 count p).bytes ≡ memory dram p k)
      × ((my_read dram 0 count p).pos_after ≡ p + k)
      × (p + k ≤ dram.size)
one_read dram count p small whole c h = elim (dec_lt p dram.size) [
  | yes inside ↦
      let r = read_inside dram count p small c inside in
      (portion count p, r.bytes, r.pos_after, omega arith)
  | no past ↦
      let stays = (my_read_lem dram 0 count p small c).0 (omega arith) in
      (0, rw stays refl, rw stays (omega arith), omega arith)
]

-- In a memory of whole pages, of at most 2 ^ 43 bytes, any sequence of reads that begins before the
-- end stays within the memory and hands over, without a gap or an overlap, the physical memory
-- between the positions where it begins and ends.
pub read_all-memory :
    (dram : Dram) (counts : List ℕ) (p : ℕ)
    → dram.size ≤ 2 ^ 43
    → dram.size % page_size ≡ 0
    → All (λ count. count < 2 ^ 63) counts
    → p ≤ dram.size
    → (n : ℕ) × (read_all dram counts p ≡ (memory dram p n, p + n)) × (p + n ≤ dram.size)
read_all-memory dram [] p small whole c h = (0, ap (λ q. ([], q)) (omega arith), omega arith)
read_all-memory dram (count ∷ counts) p small whole c h =
    let (k, bytes, after, low) = one_read dram count p small whole c.0 h in
    let (n, rest, high) = read_all-memory dram counts (p + k) small whole c.1 low in
    (
      k + n,
      rw (after, rest, bytes) (ap₂ (λ xs q. (xs, q)) (sym (memory-add dram p k n)) (omega arith)),
      omega arith,
    )
