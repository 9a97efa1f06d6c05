-- ===== src/Procfs/Buddy.antt =====
-- The table of free blocks that src/kernel/procfs/zproc.c shows as node0buddy.
use native.Mathlib.Nat.{pow-suc}
use linux_summary.Base.{
  ℕ, zero, suc, ◌+◌, ◌-◌, ◌*◌, ◌/◌, ◌^◌, ◌≤◌, ◌<◌, ◌≡◌, refl, ap, Bool, List, [], ◌∷◌, ◌++◌, ltb,
  ltb→le, if◌then◌else◌, replicate, length, arith, All, length-append, length-replicate, Bool-cases,
  inl, inr,
}
use linux_summary.Base.Text.{codes, digits}

-- A zone of the node: whether it has pages, its name, and `nr_free` for each order.
pub record Zone : Type 0 where
  pub populated : Bool
  pub name : List ℕ
  pub nr_free : List ℕ

abbrev pub decimal : ℕ → List ℕ
decimal n = digits b'a' 10 20 n

-- `%8s` and the like: blanks in front, up to a width.
abbrev pub pad : ℕ → List ℕ → List ℕ
pad w text = replicate (w - length text) b' ' ++ text

-- `%6lu ` for each order
unfoldable pub columns : List ℕ → List ℕ
columns [] = []
columns (n ∷ ns) = (pad 6 (decimal n) ++ b' ' ∷ []) ++ columns ns

unfoldable pub row : ℕ → Zone → List ℕ
unfolding columns
row node_id z =
    (((((codes "Node " ++ decimal node_id) ++ codes ", zone ") ++ pad 8 z.name) ++ b' ' ∷ [])
      ++ columns z.nr_free)
    ++ b'\n' ∷ []

-- The rows that are printed, one for each zone with pages.
unfoldable pub node0_show : ℕ → List Zone → List (List ℕ)
unfolding row
node0_show node_id [] = []
node0_show node_id (z ∷ zones) =
    let rest = node0_show node_id zones in if z.populated then row node_id z ∷ rest else rest

length-decimal : (f w n : ℕ) → n < 10 ^ suc w → length (digits b'a' 10 f n) ≤ suc w
unfolding digits
length-decimal zero w n h = omega arith
length-decimal (suc f) zero n h = elim (Bool-cases (ltb n 10)) [
  | inl small ↦ rw small (omega arith)
  | inr big ↦ absurd (omega (arith, ltb→le n 10 big))
]
length-decimal (suc f) (suc w) n h = elim (Bool-cases (ltb n 10)) [
  | inl small ↦ rw small (omega arith)
  | inr big ↦
      rw (big, length-append)
        (omega (arith, length-decimal f w (n / 10) (omega (arith, pow-suc 10 (suc w)))))
]

length-pad : (w : ℕ) (text : List ℕ) → length text ≤ w → length (pad w text) ≡ w
length-pad w text h = omega (
  arith,
  length-append (replicate (w - length text) b' ') text,
  length-replicate {A = ℕ} (w - length text) b' ',
)

length-columns : (ns : List ℕ) → All (λ n. n < 10 ^ 6) ns → length (columns ns) ≡ 7 * length ns
unfolding columns
length-columns [] h = omega arith
length-columns (n ∷ ns) h = omega (
  arith,
  length-append (pad 6 (decimal n) ++ b' ' ∷ []) (columns ns),
  length-append (pad 6 (decimal n)) (b' ' ∷ []),
  length-pad 6 (decimal n) (length-decimal 20 5 n h.0),
  length-columns ns h.1,
)

-- A zone whose name and numbers fit their columns, with `orders` numbers.
pub record Fits (orders : ℕ) (z : Zone) : Type 0 where
  pub name_fits : length z.name ≤ 8
  pub numbers_fit : All (λ n. n < 10 ^ 6) z.nr_free
  pub all_orders : length z.nr_free ≡ orders

length-row :
    (orders node_id : ℕ) (z : Zone)
    → Fits orders z
    → length (row node_id z) ≡ length (decimal node_id) + 22 + 7 * orders
unfolding row
length-row orders node_id z h =
    let head = (codes "Node " ++ decimal node_id) ++ codes ", zone " in
    omega (
      arith,
      length-append (((head ++ pad 8 z.name) ++ b' ' ∷ []) ++ columns z.nr_free) (b'\n' ∷ []),
      length-append ((head ++ pad 8 z.name) ++ b' ' ∷ []) (columns z.nr_free),
      length-append (head ++ pad 8 z.name) (b' ' ∷ []),
      length-append head (pad 8 z.name),
      length-append (codes "Node " ++ decimal node_id) (codes ", zone "),
      length-append (codes "Node ") (decimal node_id),
      length-pad 8 z.name h.name_fits,
      length-columns z.nr_free h.numbers_fit,
      h.all_orders,
    )

abbrev pub populated_zones : List Zone → ℕ
populated_zones [] = 0
populated_zones (z ∷ zones) =
    if z.populated then suc (populated_zones zones) else populated_zones zones

-- For zones whose names have at most eight characters, and whose counts of free blocks are below a
-- million: there is a row for each zone that has pages, and the rows are all of one length, so that
-- the columns stand below each other.
pub node0_show-rows :
    (orders node_id : ℕ) (zones : List Zone)
    → All (Fits orders) zones
    → (length (node0_show node_id zones) ≡ populated_zones zones)
      × All (λ r. length r ≡ length (decimal node_id) + 22 + 7 * orders) (node0_show node_id zones)
unfolding node0_show
node0_show-rows orders node_id [] h = (refl, tt)
node0_show-rows orders node_id (z ∷ zones) h =
    let (number, even) = node0_show-rows orders node_id zones h.1 in
    elim (Bool-cases z.populated) [
      | inl some_pages ↦ rw some_pages (ap suc number, (length-row orders node_id z h.0, even))
      | inr empty ↦ rw empty (number, even)
    ]
