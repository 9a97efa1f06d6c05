-- ===== src/SysReg/MemMap.antt =====
-- The program src/kernel/linux_memory/mm_addr/mem_map.c, which shows the file of sys_reg.c.
use linux_summary.Base.{
  ℕ, zero, suc, ◌-◌, ◌<◌, ◌≡◌, ap, ◌∙◌, Bool, true, false, if◌then◌else◌, List, [], ◌∷◌, ◌++◌,
  append_assoc, length, drop, set, arith,
}
use linux_summary.Base.Int.{ℤ, pos, ltb_ℤ, pos_part}
use linux_summary.Base.Strto.{c_string, has_nul, c_string-nul, has_nul-append, has_nul-digits}
use linux_summary.SysReg.{Registers, hex, text, my_get_info}
use linux_summary.SysReg.Length.{length-text}

abbrev pub buf_size : ℕ
buf_size = 4096

-- The exit code of a failure, or what is printed of `buf`.
pub data Printed : Type 0 where
  exited : (code : ℕ) → Printed
  printed : List ℕ → Printed

-- `buf[local_n] = 0`, in `buf` with the bytes that were read in front.
abbrev pub filled : (local_n : ℕ) (bytes buf : List ℕ) → List ℕ
filled local_n bytes buf = set (bytes ++ drop (length bytes) buf) local_n 0

-- `FILE_TO_BUF` and the `printf` behind it, with whether the file is opened, the result and the
-- bytes of `read` for a count, and `buf`.
unfoldable pub main : (opens : Bool) (read : ℕ → ℤ × List ℕ) (buf : List ℕ) → Printed
unfolding c_string
main opens read buf =
    let (local_n, bytes) = read (buf_size - 1) in
    if opens
    then (if ltb_ℤ local_n (pos 0)
        then exited 103
        else printed (c_string (filled (pos_part local_n) bytes buf)))
    else exited 102

set-behind :
    (t rest : List ℕ) (n : ℕ)
    → length t < n
    → set (t ++ 0 ∷ rest) n 0 ≡ t ++ 0 ∷ set rest (n - length t - 1) 0
set-behind [] rest zero h = absurd (omega (arith, h))
set-behind [] rest (suc n) h = ap (λ k. 0 ∷ set rest k 0) (omega arith)
set-behind (c ∷ t) rest zero h = absurd (omega (arith, h))
set-behind (c ∷ t) rest (suc n) h =
    ap (λ l. c ∷ l) (set-behind t rest n (omega (arith, h)))
    ∙ ap (λ k. c ∷ t ++ 0 ∷ set rest k 0) (omega arith)

has_nul-hex : (n : ℕ) → has_nul (hex n) ≡ false
has_nul-hex n = has_nul-digits b'A' 16 16 n (omega arith)

ruleset no_nuls = (has_nul-append, has_nul-hex)

has_nul-text : (r : Registers) → has_nul (text r) ≡ false
unfolding text
has_nul-text r = simp no_nuls

filled-text :
    (t buf : List ℕ) (n : ℕ)
    → has_nul t ≡ false
    → length t < n
    → c_string (filled n (t ++ 0 ∷ []) buf) ≡ t
filled-text t buf n h less =
    let rest = drop (length (t ++ 0 ∷ [])) buf in
    ap (λ l. c_string (set l n 0)) (append_assoc t (0 ∷ []) rest)
    ∙ ap c_string (set-behind t rest n less)
    ∙ c_string-nul t (set rest (n - length t - 1) 0) h

-- Though the driver says that it gave all 4095 bytes, and whatever the buffer held before: the
-- program prints the text of the registers and nothing behind it.
pub main-text : (r : Registers) (buf : List ℕ) → main true (my_get_info r) buf ≡ printed (text r)
unfolding main my_get_info
main-text r buf =
    let within = length-text r in
    ap printed (filled-text (text r) buf 4095 (has_nul-text r) (omega (arith, within.most)))
