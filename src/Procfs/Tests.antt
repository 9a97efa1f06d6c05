-- ===== src/Procfs/Tests.antt =====
-- The theorems on the files under /proc at short writes.
use linux_summary.Base.{
  ℕ, ◌-◌, ◌≡◌, refl, Bool, if◌then◌else◌, ltb, ◌==◌, ◌||◌, true, false, Option, none, some, List,
  [], ◌∷◌, length, All, arith,
}
use linux_summary.Base.Int.{negsuc, ℤ, pos}
use linux_summary.Base.Text.{codes}
use linux_summary.Procfs.Nodes.{Nodes, IsNodes, info_show, lines_from, info_show-lines}
use linux_summary.Procfs.{Input}
use linux_summary.Procfs.Write.{IsText}
use linux_summary.Procfs.Zproc
use linux_summary.Procfs.Zproc.{
  mminfo, find_task_error, mminfo_show, mminfo_write, mminfo_write-show, value_at, phys_value_write,
  phys_value_show, word_at, memory, page_size, phys_value_write-show,
}
use linux_summary.Procfs.Affinity
use linux_summary.Procfs.Affinity.{
  Policy, preferred, bind, cpus, policy_lines, proc_get_write, proc_get_show, proc_get_write-show,
}
use linux_summary.Procfs.Buddy.{Zone, Fits}
use linux_summary.Procfs.Sessions.{
  Kernel, Op, write_mminfo, write_phys, read_mminfo, read_phys, read_buddy, session,
}
use linux_summary.Procfs.Sessions.Registers.{promised, session-promised}

abbrev kstrtol : List ℕ → ℕ → Option ℤ
kstrtol [] base = none
kstrtol (c ∷ text) base = some (pos (c - b'0'))

abbrev text : List ℕ
text = b'8' ∷ []

text-IsText : IsText text
text-IsText = (λ e. omega arith, tt)

abbrev write : Input
write = record { count = length text; bytes = text; fails = false }

abbrev no_process : Zproc.State
no_process = record { pid = pos 0; phys = pos 0 }

abbrev find : ℤ → Option Zproc.Task
find (pos n) =
    let mm : Zproc.Mm = record { map_count = 2; numbers = [] } in
    some (record { comm = n; active_mm = if n == 2 then none else some mm })
find (negsuc n) = none

abbrev task : Affinity.Task
task = record { nr_cpus_allowed = 4; cpus_allowed = 15; mempolicy = some (bind 1) }

abbrev zones : List Zone
zones =
    record { populated = true; name = codes "DMA"; nr_free = 1 ∷ 20 ∷ [] }
    ∷ record { populated = false; name = codes "Movable"; nr_free = 0 ∷ 0 ∷ [] }
    ∷ record { populated = true; name = codes "Normal"; nr_free = 12345 ∷ 6 ∷ [] }
    ∷ []

zones-Fits : All (Fits 2) zones
zones-Fits = (
  record {
    name_fits = omega arith;
    numbers_fit = (omega arith, (omega arith, tt));
    all_orders = refl;
  },
  (
    record {
      name_fits = omega arith;
      numbers_fit = (omega arith, (omega arith, tt));
      all_orders = refl;
    },
    (
      record {
        name_fits = omega arith;
        numbers_fit = (omega arith, (omega arith, tt));
        all_orders = refl;
      },
      tt,
    ),
  ),
)

-- The nodes 0 and 2 of four.
abbrev online : ℕ → Bool
online i = (i == 0) || (i == 2)

abbrev nodes : Nodes
nodes = record {
  max_numnodes = 4;
  first_online_node = 0;
  next_online_node = λ nid. if ltb nid 2 then 2 else 4;
  node_data = λ nid. record {
    node_id = nid;
    nr_zones = 0;
    node_start_pfn = 0;
    node_present_pages = 0;
    node_zones = [];
  };
}

nodes-IsNodes : IsNodes nodes online
nodes-IsNodes = record {
  id = λ nid on. refl;
  first_within = omega arith;
  first_online = λ h. refl;
  none_before = λ i h. absurd (omega (arith, h));
  next_behind = λ nid h. ground (arith, h);
  next_within = λ nid h. ground arith;
  next_online = λ nid h. ground (arith, h);
  none_between = λ nid i low high. ground (arith, low, high);
}

info_show-lines_example : info_show nodes ≡ some (lines_from nodes online 4 0)
info_show-lines_example = info_show-lines nodes online nodes-IsNodes

abbrev system : Kernel
system = record {
  kstrtol = kstrtol;
  find = find;
  pfn_to_page = λ n. some n;
  frame = λ pg o. o;
  node_id = 0;
  zones = zones;
}

abbrev ops : List Op
ops =
    write_mminfo text false
    ∷ write_phys text false
    ∷ read_mminfo
    ∷ write_mminfo text true
    ∷ read_phys
    ∷ read_buddy
    ∷ []

session-promised_example : session system ops no_process ≡ promised system ops (pos 0) (pos 0)
session-promised_example =
    session-promised system ops no_process
      (text-IsText, omega arith, (text-IsText, omega arith, (text-IsText, omega arith, tt)))
