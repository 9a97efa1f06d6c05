-- ===== src/ProcMem/Tests.antt =====
-- The theorems on proc_mem.c at a run that reads less than it asks for.
use linux_summary.Base.{true, some, [], ◌∷◌}
use linux_summary.Base.Int.{pos}
use linux_summary.ProcMem.{Args, Answers}

abbrev args : Args
args = record { pid = 7; addr = 0x400000; len = pos 4 }

abbrev answers : Answers
answers = record {
  opens = true;
  attaches = true;
  waits = true;
  seeks = true;
  malloc = some (9 ∷ 9 ∷ 9 ∷ 9 ∷ []);
  read = 0x7F ∷ 0x45 ∷ [];
}
