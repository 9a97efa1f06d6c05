-- ===== src/Zpage/Walk.antt =====
-- The page walk of zpage.c.
use linux_summary.Base.{ℕ, ◌/◌, ◌≡◌, refl, ◌||◌, Option, none, some, if◌then◌else◌}
use linux_summary.Zpage.{Entry, Tables, page_size}

walk_pmd : Tables → Entry → ℕ → Option ℕ
walk_pmd t pmd addr =
    if pmd.is_none || pmd.is_bad
    then none
    else elim (t.pte_offset_map pmd.table addr) [ none ↦ none | some pte ↦ t.pte_page pte ]

walk_pud : Tables → Entry → ℕ → Option ℕ
unfolding walk_pmd
walk_pud t pud addr =
    if pud.is_none || pud.is_bad then none else walk_pmd t (t.pmd_offset pud.table addr) addr

unfoldable pub walk_task_page : Tables → ℕ → Option ℕ
unfolding walk_pud
walk_task_page t addr =
    let pgd = t.pgd_offset addr in
    if pgd.is_none || pgd.is_bad then none else walk_pud t (t.pud_offset pgd.table addr) addr

-- The tables tell addresses apart by their page alone, as those of the hardware do.
pub record IsPaged (t : Tables) : Type 0 where
  pub pgd : (a b : ℕ) → a / page_size ≡ b / page_size → t.pgd_offset a ≡ t.pgd_offset b
  pub pud : (n a b : ℕ) → a / page_size ≡ b / page_size → t.pud_offset n a ≡ t.pud_offset n b
  pub pmd : (n a b : ℕ) → a / page_size ≡ b / page_size → t.pmd_offset n a ≡ t.pmd_offset n b
  pub pte :
      (n a b : ℕ) → a / page_size ≡ b / page_size → t.pte_offset_map n a ≡ t.pte_offset_map n b

-- Two addresses of one page are led to the same page, or both to none.
pub walk_task_page-same :
    {t : Tables}
    → IsPaged t
    → (a b : ℕ) → a / page_size ≡ b / page_size
    → walk_task_page t a ≡ walk_task_page t b
unfolding walk_task_page
walk_task_page-same {t} is a b h =
    let top = is.pgd a b h in
    let second = is.pud (t.pgd_offset b).table a b h in
    let third = is.pmd (t.pud_offset (t.pgd_offset b).table b).table a b h in
    let last = is.pte (t.pmd_offset (t.pud_offset (t.pgd_offset b).table b).table b).table a b h in
    rw (top, second, third, last) refl
