-- ===== src/Zpage/Report.antt =====
-- The texts that zpage.c shows of a process.
use native.Mathlib.Nat.{zero-add}
use linux_summary.Base.{
  ℕ, ◌+◌, ◌*◌, ◌≤◌, ◌<◌, ◌≡◌, refl, Option, some, List, [], ◌∷◌, ◌++◌, map, length, arith,
  length-append,
}
use linux_summary.Base.Int.{ℤ, pos}
use linux_summary.Base.Text.{codes, length-digits_fuel}
use linux_summary.Zpage.{Run, done, beyond_buffer, Mm, Task, Device, mmap_len}
use linux_summary.Zpage.Buffer.{concat, write_at, append_lines_fit, append_lines_overflow}
use linux_summary.Zpage.Ioctl.{
  hex, decimal, mm_lines, vma_line, vma_lines, report, get_mm_info, get_vma_info, my_ioctl,
}

length-hex : (n : ℕ) → length (hex n) ≤ 16
length-hex n = length-digits_fuel b'a' 16 16 n

length-decimal : (n : ℕ) → length (decimal n) ≤ 20
length-decimal n = length-digits_fuel b'a' 10 20 n

-- Lines with one, two and three numbers.
length-one_hex : (p : List ℕ) (x : ℕ) → length (p ++ hex x ++ b'\n' ∷ []) ≤ length p + 17
length-one_hex p x =
    omega (arith, length-append (p ++ hex x) (b'\n' ∷ []), length-append p (hex x), length-hex x)

length-two_hex :
    (p q : List ℕ) (x y : ℕ)
    → length (p ++ hex x ++ q ++ hex y ++ b'\n' ∷ []) ≤ length p + length q + 33
length-two_hex p q x y = omega (
  arith,
  length-append (p ++ hex x ++ q ++ hex y) (b'\n' ∷ []),
  length-append (p ++ hex x ++ q) (hex y),
  length-append (p ++ hex x) q,
  length-append p (hex x),
  length-hex x,
  length-hex y,
)

length-three :
    (p q s : List ℕ) (n x y : ℕ)
    → length (p ++ decimal n ++ q ++ hex x ++ s ++ hex y ++ b'\n' ∷ [])
      ≤ length p + length q + length s + 53
length-three p q s n x y = omega (
  arith,
  length-append (p ++ decimal n ++ q ++ hex x ++ s ++ hex y) (b'\n' ∷ []),
  length-append (p ++ decimal n ++ q ++ hex x ++ s) (hex y),
  length-append (p ++ decimal n ++ q ++ hex x) s,
  length-append (p ++ decimal n ++ q) (hex x),
  length-append (p ++ decimal n) q,
  length-append p (decimal n),
  length-decimal n,
  length-hex x,
  length-hex y,
)

-- A text of four lines whose lengths are bounded.
length-four :
    (a b c d : List ℕ) (m n o p : ℕ)
    → length a ≤ m
    → length b ≤ n
    → length c ≤ o
    → length d ≤ p
    → m + n + o + p < mmap_len
    → length (concat (a ∷ b ∷ c ∷ d ∷ [])) < mmap_len
length-four a b c d m n o p ha hb hc hd small = omega (
  arith,
  length-append a (b ++ (c ++ (d ++ []))),
  length-append b (c ++ (d ++ [])),
  length-append c (d ++ []),
  length-append d [],
)

length-vma_line : (v : ℕ × ℕ) → length (vma_line v) ≤ 52
unfolding vma_line
length-vma_line (start, end) =
    omega (arith, length-two_hex (codes "vma start:0x") (codes " end:0x") start end)

length-concat_vmas : (vs : List (ℕ × ℕ)) → length (concat (map vma_line vs)) ≤ 52 * length vs
length-concat_vmas [] = omega arith
length-concat_vmas (v ∷ vs) = omega (
  arith,
  length-append (vma_line v) (concat (map vma_line vs)),
  length-vma_line v,
  length-concat_vmas vs,
)

pub length-mm_lines : (mm : Mm) → length (concat (mm_lines mm)) < mmap_len
unfolding mm_lines
length-mm_lines mm =
    length-four (codes "start_stack:0x" ++ hex mm.start_stack ++ b'\n' ∷ [])
      (codes "start_code:0x"
        ++ hex mm.start_code
        ++ codes " end_code:0x"
        ++ hex mm.end_code
        ++ b'\n' ∷ [])
      (codes "start_data:0x"
        ++ hex mm.start_data
        ++ codes " end_data:0x"
        ++ hex mm.end_data
        ++ b'\n' ∷ [])
      (codes "total_vm:"
        ++ decimal mm.total_vm
        ++ codes " arg_start:0x"
        ++ hex mm.arg_start
        ++ codes " arg_end:0x"
        ++ hex mm.arg_end
        ++ b'\n' ∷ [])
      31 58 58 86 (length-one_hex (codes "start_stack:0x") mm.start_stack)
      (length-two_hex (codes "start_code:0x") (codes " end_code:0x") mm.start_code mm.end_code)
      (length-two_hex (codes "start_data:0x") (codes " end_data:0x") mm.start_data mm.end_data)
      (length-three (codes "total_vm:") (codes " arg_start:0x") (codes " arg_end:0x") mm.total_vm
        mm.arg_start mm.arg_end)
      (omega arith)

length-vma_lines : (mm : Mm) → length mm.mmap ≤ 78 → length (concat (vma_lines mm)) < mmap_len
unfolding vma_lines
length-vma_lines mm h =
    let count = codes "map_count:" ++ decimal mm.map_count ++ b'\n' ∷ [] in
    omega (
      arith,
      length-append count (concat (map vma_line mm.mmap)),
      length-append (codes "map_count:" ++ decimal mm.map_count) (b'\n' ∷ []),
      length-append (codes "map_count:") (decimal mm.map_count),
      length-decimal mm.map_count,
      length-concat_vmas mm.mmap,
    )

-- What a report leaves: the text with a zero behind it, and its length.
abbrev pub shown : List ℕ → Device → Run (ℤ × Device)
shown text d =
    done (pos (length text), record d { mmap_data = write_at d.mmap_data 0 (text ++ 0 ∷ []) })

pub report_lem :
    (lines : List (List ℕ)) (d : Device)
    → length d.mmap_data ≡ mmap_len
    → (length (concat lines) < mmap_len → report lines d ≡ shown (concat lines) d)
      × (mmap_len ≤ length (concat lines) → report lines d ≡ beyond_buffer)
unfolding report
report_lem lines d len = (
  λ fits. rw (append_lines_fit lines d.mmap_data 0 len (omega arith), zero-add) refl,
  λ long. rw (append_lines_overflow lines d.mmap_data 0 (omega arith)) refl,
)

-- For a process with an `mm`, the report on its memory is whole: it always fits the buffer.
pub my_ioctl-mm_info :
    (find : ℕ → Option Task) (pid : ℕ) (mm : Mm) (d : Device)
    → find pid ≡ some (record { mm = some mm })
    → length d.mmap_data ≡ mmap_len
    → my_ioctl find (get_mm_info pid) d ≡ shown (concat (mm_lines mm)) d
unfolding my_ioctl
my_ioctl-mm_info find pid mm d found len =
    rw found ((report_lem (mm_lines mm) d len).0 (length-mm_lines mm))

-- For a process with an `mm`, the report on its areas is whole if it is shorter than the buffer, and
-- leaves the buffer if it is not. With at most 78 areas it is shorter.
pub my_ioctl-vma_info :
    (find : ℕ → Option Task) (pid : ℕ) (mm : Mm) (d : Device)
    → find pid ≡ some (record { mm = some mm })
    → length d.mmap_data ≡ mmap_len
    → (length (concat (vma_lines mm)) < mmap_len
        → my_ioctl find (get_vma_info pid) d ≡ shown (concat (vma_lines mm)) d)
      × (mmap_len ≤ length (concat (vma_lines mm))
          → my_ioctl find (get_vma_info pid) d ≡ beyond_buffer)
      × (length mm.mmap ≤ 78 → length (concat (vma_lines mm)) < mmap_len)
unfolding my_ioctl
my_ioctl-vma_info find pid mm d found len =
    let (fits, long) = report_lem (vma_lines mm) d len in
    (λ h. rw found (fits h), λ h. rw found (long h), length-vma_lines mm)
