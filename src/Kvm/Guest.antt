-- ===== src/Kvm/Guest.antt =====
-- Where the machines of the two programs start.
use linux_summary.Base.{
  ℕ, ◌+◌, ◌-◌, ◌≤◌, ◌<◌, ◌≡◌, refl, ap, ◌∙◌, Bool, true, false, ◌&&◌, Option, none, some, List, [],
  ◌∷◌, ◌++◌, ltb, leb, le→ltb, ◌==◌, if◌then◌else◌, get_elem?, length, replicate, arith,
  length-append, length-replicate, zero, suc,
}
use linux_summary.Base.Int.{pos, negsuc}
use linux_summary.Kvm.{Answers, Machine, Prepared, stopped, ready, Exit}
use linux_summary.Kvm.Test1
use linux_summary.Kvm.Test2

-- The byte that the machine has at a guest's physical address: none outside its memory.
abbrev pub guest_byte : Machine → ℕ → Option ℕ
guest_byte m a =
    if ltb a m.guest_phys_addr then none else get_elem? m.memory (a - m.guest_phys_addr)

-- Every call has answered as it should.
abbrev pub all_well : Answers → Bool
all_well a =
    a.open_kvm
    && elim a.api_version [ negsuc n ↦ false | pos n ↦ n == 12 ]
    && elim a.user_memory [ negsuc n ↦ false | pos n ↦ ltb 0 n ]
    && a.create_vm
    && a.map_memory
    && a.set_region
    && a.create_vcpu
    && elim a.vcpu_mmap_size [ negsuc n ↦ false | pos n ↦ leb a.run_size n ]
    && a.map_run
    && a.get_sregs
    && a.set_sregs
    && a.set_regs

get_elem?-append :
    (xs ys : List ℕ) (i : ℕ) → i < length xs → get_elem? (xs ++ ys) i ≡ get_elem? xs i
get_elem?-append [] ys i h = absurd (omega arith)
get_elem?-append (x ∷ xs) ys zero h = refl
get_elem?-append (x ∷ xs) ys (suc i) h = get_elem?-append xs ys i (omega arith)

-- What both programs want of the machine that they run.
pub record StartsAt (code : List ℕ) (m : Machine) : Type 0 where
  pub page : length m.memory ≡ 0x1000
  pub fetched : (i : ℕ) → i < length code → guest_byte m (m.cs_base + m.rip + i) ≡ get_elem? code i
  pub operands : (m.rax ≡ 2) × (m.rbx ≡ 2)

starts :
    (code : List ℕ) (base : ℕ)
    → length code ≤ 0x1000
    → StartsAt code (record {
      memory = code ++ replicate (0x1000 - length code) 0;
      guest_phys_addr = base;
      cs_base = 0;
      cs_selector = 0;
      rip = base;
      rax = 2;
      rbx = 2;
      rflags = 2;
    })
starts code base h = record {
  page = omega (
    arith,
    length-append code (replicate (0x1000 - length code) 0),
    length-replicate {A = ℕ} (0x1000 - length code) 0,
  );
  fetched = λ i lt. rw (le→ltb (0 + base + i) base (omega arith)) (
      ap (get_elem? (code ++ replicate (0x1000 - length code) 0)) (omega arith)
      ∙ get_elem?-append code (replicate (0x1000 - length code) 0) i lt);
  operands = (refl, refl);
}

abbrev pub is_ready : Prepared → Bool
is_ready (stopped stage) = false
is_ready (ready m) = true

-- The first program makes a machine exactly when all calls answer as they should. It is then the
-- one whose bytes at the instruction pointer are the program's code, inside the page given to it.
pub prepare-StartsAt :
    (a : Answers)
    → (is_ready (Test1.prepare a) ≡ all_well a)
      × (all_well a ≡ true → (m : Machine) × (Test1.prepare a ≡ ready m) × StartsAt Test1.code m)
unfolding Test1.prepare
prepare-StartsAt a =
    (ground arith, λ well. (Test1.machine, ground arith, starts Test1.code 0x1000 (omega arith)))

-- The second program, given a file, does so for the file's bytes if they fit the page. If they do
-- not, and the calls before the copy succeed, the copy leaves the page.
pub main-StartsAt :
    (code : List ℕ) (a : Answers) (exits : List (Option Exit))
    → (length code ≤ 0x1000
        → (is_ready (Test2.prepare code a) ≡ all_well a)
          × (all_well a ≡ true
              → (m : Machine) × (Test2.prepare code a ≡ ready m)
                × (Test2.main (Test2.Argument.file code) a exits ≡ some (Test2.run_loop exits))
                × StartsAt code m)
          × (all_well a ≡ false
              → Test2.main (Test2.Argument.file code) a exits ≡ some (some 1, [])))
      × (0x1000 < length code
          → Test2.reaches_copy a ≡ true
          → Test2.main (Test2.Argument.file code) a exits ≡ none)
unfolding Test2.prepare Test2.main Test2.reaches_copy
main-StartsAt code a exits = (
  λ fits. (
    ground arith,
    λ well. (Test2.machine code, ground arith, ground arith, starts code 0 fits),
    λ bad. ground arith,
  ),
  λ long reaches. ground arith,
)
