-- ===== src/Zpage/User/Reports.antt =====
-- The texts of the driver hold no NUL, so that the program shows all of them.
use linux_summary.Base.{ℕ, ◌≡◌, refl, false, List, [], ◌∷◌, map, arith}
use linux_summary.Base.Strto.{has_nul, has_nul-append, has_nul-digits}
use linux_summary.Zpage.{Mm}
use linux_summary.Zpage.Buffer.{concat}
use linux_summary.Zpage.Ioctl.{hex, decimal, mm_lines, vma_line, vma_lines}

has_nul-hex : (n : ℕ) → has_nul (hex n) ≡ false
has_nul-hex n = has_nul-digits b'a' 16 16 n (omega arith)

has_nul-decimal : (n : ℕ) → has_nul (decimal n) ≡ false
has_nul-decimal n = has_nul-digits b'a' 10 20 n (omega arith)

ruleset no_nuls = (has_nul-append, has_nul-hex, has_nul-decimal)

pub has_nul-mm_lines : (mm : Mm) → has_nul (concat (mm_lines mm)) ≡ false
unfolding mm_lines
has_nul-mm_lines mm = simp no_nuls

has_nul-vma_line : (v : ℕ × ℕ) → has_nul (vma_line v) ≡ false
unfolding vma_line
has_nul-vma_line (start, end) = simp no_nuls

has_nul-vmas : (vs : List (ℕ × ℕ)) → has_nul (concat (map vma_line vs)) ≡ false
has_nul-vmas [] = refl
has_nul-vmas (v ∷ vs) =
    rw (has_nul-append (vma_line v) (concat (map vma_line vs)), has_nul-vma_line v, has_nul-vmas vs)
      refl

pub has_nul-vma_lines : (mm : Mm) → has_nul (concat (vma_lines mm)) ≡ false
unfolding vma_lines
has_nul-vma_lines mm = simp (no_nuls, has_nul-vmas)
