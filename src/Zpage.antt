-- ===== src/Zpage.antt =====
-- The driver src/kernel/linux_memory/user_task_page/zpage.c, which shows pages of another process:
-- what it keeps and what it uses of the kernel, which is a parameter.
pub mod Walk
pub mod Buffer
pub mod Ioctl
pub mod Report
pub mod Region
pub mod User
pub mod UserCmd
pub mod Module
mod Tests
use linux_summary.Base.{ℕ, Bool, Option, List}

abbrev pub mmap_len : ℕ
mmap_len = 4096

abbrev pub page_size : ℕ
page_size = 4096

-- A result, or the access that the code makes without a test: through a task, an `mm` or a page
-- that is not there, behind the end of the mapped page, or behind the end of `mmap_data`.
pub data Run {ℓ} (A : Type ℓ) : Type ℓ where
  done : A → Run A
  no_task no_mm no_page beyond_page beyond_buffer : Run A

abbrev pub and_then {ℓ κ} : {A : Type ℓ} {B : Type κ} → Run A → (A → Run B) → Run B
and_then (done a) f = f a
and_then no_task f = no_task
and_then no_mm f = no_mm
and_then no_page f = no_page
and_then beyond_page f = beyond_page
and_then beyond_buffer f = beyond_buffer

-- An entry of one of the upper three tables, with the table that it leads to.
pub record Entry : Type 0 where
  pub is_none : Bool
  pub is_bad : Bool
  pub table : ℕ

-- The kernel's page tables of a process, as the walk asks for them.
pub record Tables : Type 0 where
  pub pgd_offset : (addr : ℕ) → Entry
  pub pud_offset : (table addr : ℕ) → Entry
  pub pmd_offset : (table addr : ℕ) → Entry
  pub pte_offset_map : (table addr : ℕ) → Option ℕ
  pub pte_page : ℕ → Option ℕ

-- `mm_struct`, with the start and the end of each area.
pub record Mm : Type 0 where
  pub tables : Tables
  pub start_stack : ℕ
  pub start_code : ℕ
  pub end_code : ℕ
  pub start_data : ℕ
  pub end_data : ℕ
  pub total_vm : ℕ
  pub arg_start : ℕ
  pub arg_end : ℕ
  pub map_count : ℕ
  pub mmap : List (ℕ × ℕ)

-- `task_struct`; a thread of the kernel has no `mm`.
pub record Task : Type 0 where
  pub mm : Option Mm

-- `mmap_data`, and the bytes of each page.
pub record Device : Type 0 where
  pub mmap_data : List ℕ
  pub frame : (page offset : ℕ) → ℕ
