-- ===== src/Procfs/Sessions.antt =====
-- The files of zproc.c as they are opened, read and written in turn: a reader opens a file anew,
-- so that `seq_read` gives it what the file's `show` prints.
pub mod Registers
use linux_summary.Base.{ℕ, Bool, Option, none, some, List, [], ◌∷◌, length}
use linux_summary.Base.Int.{ℤ}
use linux_summary.Procfs.{Input}
use linux_summary.Procfs.Zproc.{
  State, Task, Line, mminfo_show, mminfo_write, phys_value_write, phys_value_show,
}
use linux_summary.Procfs.Buddy.{Zone, node0_show}

-- What the module asks of the kernel.
pub record Kernel : Type 0 where
  pub kstrtol : List ℕ → ℕ → Option ℤ
  pub find : ℤ → Option Task
  pub pfn_to_page : ℕ → Option ℕ
  pub frame : ℕ → ℕ → ℕ
  pub node_id : ℕ
  pub zones : List Zone

-- What a call on a file gives; `fault` where the module reads what is not there.
pub data Result : Type 0 where
  wrote : ℤ → Result
  line : Line → Result
  rows : List (List ℕ) → Result
  fault : Result

-- `struct file_operations` of a file, with the `show` that its `open` hands to `single_open`.
pub record Fops : Type 0 where
  pub show : State → Result
  pub write : Input → State → Option (ℤ × State)

abbrev pub or_fault : Option Line → Result
or_fault none = fault
or_fault (some l) = line l

abbrev pub mminfo_proc_open : Kernel → State → Result
mminfo_proc_open k s = or_fault (mminfo_show k.find s)

abbrev pub mminfo_proc_fops : Kernel → Fops
mminfo_proc_fops k = record { show = mminfo_proc_open k; write = mminfo_write k.kstrtol }

abbrev pub phys_value_open : Kernel → State → Result
phys_value_open k s = or_fault (phys_value_show k.pfn_to_page k.frame s)

abbrev pub phys_proc_fops : Kernel → Fops
phys_proc_fops k = record { show = phys_value_open k; write = phys_value_write k.kstrtol }

-- `buddy_proc_open`; `buddy_proc_fops` has no `write`.
abbrev pub buddy_proc_open : Kernel → State → Result
buddy_proc_open k s = rows (node0_show k.node_id k.zones)

-- A call: a text written to one of the files, where the copy may fail, or a file opened and read.
pub data Op : Type 0 where
  write_mminfo write_phys : (text : List ℕ) → (fails : Bool) → Op
  read_mminfo read_phys read_buddy : Op

abbrev pub input : List ℕ → Bool → Input
input text fails = record { count = length text; bytes = text; fails = fails }

abbrev pub written : Option (ℤ × State) → (State → List Result) → List Result
written none rest = fault ∷ []
written (some (ret, s)) rest = wrote ret ∷ rest s

unfoldable pub session : Kernel → List Op → State → List Result
unfolding mminfo_write phys_value_write mminfo_show phys_value_show
session k [] s = []
session k (write_mminfo text fails ∷ ops) s =
    written ((mminfo_proc_fops k).write (input text fails) s) (session k ops)
session k (write_phys text fails ∷ ops) s =
    written ((phys_proc_fops k).write (input text fails) s) (session k ops)
session k (read_mminfo ∷ ops) s = (mminfo_proc_fops k).show s ∷ session k ops s
session k (read_phys ∷ ops) s = (phys_proc_fops k).show s ∷ session k ops s
session k (read_buddy ∷ ops) s = buddy_proc_open k s ∷ session k ops s
