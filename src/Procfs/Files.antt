-- ===== src/Procfs/Files.antt =====
-- The files that zproc.c, cpu_affinity.c and node_zone_list.c make under /proc and take away.
use linux_summary.Base.{
  ℕ, ◌+◌, ◌≡◌, refl, if◌then◌else◌, ◌==◌, Option, none, some, List, [], ◌∷◌, ◌++◌, arith,
}
use linux_summary.Base.Text.{codes}

-- What is done with an entry, which has a number: it is made in a directory (`none` for /proc
-- itself), or removed.
pub data Act : Type 0 where
  made_dir : (id : ℕ) → (name : List ℕ) → Act
  made_file : (id : ℕ) (parent : Option ℕ) (name : List ℕ) (mode : ℕ) → Act
  removed : (id : ℕ) → Act

-- `proc_mkdir`, `proc_create` and `proc_remove`, each with the pointer that it gives or gets.
abbrev pub proc_mkdir : Option ℕ → List ℕ → List Act
proc_mkdir none name = []
proc_mkdir (some id) name = made_dir id name ∷ []

abbrev pub proc_create : Option ℕ → List ℕ → (mode : ℕ) (parent : Option ℕ) → List Act
proc_create none name mode parent = []
proc_create (some id) name mode parent = made_file id parent name mode ∷ []

abbrev pub proc_remove : Option ℕ → List Act
proc_remove none = []
proc_remove (some id) = removed id ∷ []

-- The pointers that zproc.c keeps.
pub record Zproc : Type 0 where
  pub proc_dir : Option ℕ
  pub mminfo : Option ℕ
  pub phys_value : Option ℕ
  pub buddy_proc : Option ℕ

unfoldable pub zproc_init : Zproc → List Act
zproc_init k =
    proc_mkdir k.proc_dir (codes "zproc")
    ++ proc_create k.mminfo (codes "mminfo") 438 k.proc_dir
    ++ proc_create k.phys_value (codes "physvalue") 438 k.proc_dir
    ++ proc_create k.buddy_proc (codes "node0buddy") 292 k.proc_dir

unfoldable pub zproc_exit : Zproc → List Act
zproc_exit k =
    proc_remove k.mminfo
    ++ proc_remove k.phys_value
    ++ proc_remove k.buddy_proc
    ++ proc_remove k.proc_dir

-- The pointers that cpu_affinity.c and node_zone_list.c keep.
pub record OneFile : Type 0 where
  pub proc_dir : Option ℕ
  pub file : Option ℕ

unfoldable pub affinity_init : OneFile → List Act
affinity_init k =
    proc_mkdir k.proc_dir (codes "cpu_affinity") ++ proc_create k.file (codes "get") 438 k.proc_dir

unfoldable pub affinity_exit : OneFile → List Act
affinity_exit k = proc_remove k.file ++ proc_remove k.proc_dir

unfoldable pub node_zone_list_init : OneFile → List Act
node_zone_list_init k =
    proc_mkdir k.proc_dir (codes "node_zone_list")
    ++ proc_create k.file (codes "info") 292 k.proc_dir

unfoldable pub node_zone_list_exit : OneFile → List Act
node_zone_list_exit k = proc_remove k.file ++ proc_remove k.proc_dir

-- How often an entry is made, and removed.
abbrev pub makings : ℕ → List Act → ℕ
makings id [] = 0
makings id (made_dir i name ∷ acts) = (if i == id then 1 else 0) + makings id acts
makings id (made_file i parent name mode ∷ acts) = (if i == id then 1 else 0) + makings id acts
makings id (removed i ∷ acts) = makings id acts

abbrev pub removals : ℕ → List Act → ℕ
removals id [] = 0
removals id (made_dir i name ∷ acts) = removals id acts
removals id (made_file i parent name mode ∷ acts) = removals id acts
removals id (removed i ∷ acts) = (if i == id then 1 else 0) + removals id acts

makings-append : (id : ℕ) (xs ys : List Act) → makings id (xs ++ ys) ≡ makings id xs + makings id ys
makings-append id [] ys = omega arith
makings-append id (made_dir i name ∷ xs) ys = omega (arith, makings-append id xs ys)
makings-append id (made_file i parent name mode ∷ xs) ys = omega (arith, makings-append id xs ys)
makings-append id (removed i ∷ xs) ys = makings-append id xs ys

removals-append :
    (id : ℕ) (xs ys : List Act) → removals id (xs ++ ys) ≡ removals id xs + removals id ys
removals-append id [] ys = omega arith
removals-append id (made_dir i name ∷ xs) ys = removals-append id xs ys
removals-append id (made_file i parent name mode ∷ xs) ys = removals-append id xs ys
removals-append id (removed i ∷ xs) ys = omega (arith, removals-append id xs ys)

dir-removed :
    (id : ℕ) (p : Option ℕ) (name : List ℕ)
    → makings id (proc_mkdir p name) ≡ removals id (proc_remove p)
dir-removed id none name = refl
dir-removed id (some i) name = refl

file-removed :
    (id : ℕ) (p : Option ℕ) (name : List ℕ) (mode : ℕ) (parent : Option ℕ)
    → makings id (proc_create p name mode parent) ≡ removals id (proc_remove p)
file-removed id none name mode parent = refl
file-removed id (some i) name mode parent = refl

one_file-removed :
    (id : ℕ) (k : OneFile) (dir name : List ℕ) (mode : ℕ)
    → makings id (proc_mkdir k.proc_dir dir ++ proc_create k.file name mode k.proc_dir)
      ≡ removals id (proc_remove k.file ++ proc_remove k.proc_dir)
one_file-removed id k dir name mode = omega (
  arith,
  makings-append id (proc_mkdir k.proc_dir dir) (proc_create k.file name mode k.proc_dir),
  removals-append id (proc_remove k.file) (proc_remove k.proc_dir),
  dir-removed id k.proc_dir dir,
  file-removed id k.file name mode k.proc_dir,
)

-- Whichever of their directories and files the three modules can make: when a module is removed,
-- each is removed as often as it was made.
pub init-exit :
    (z : Zproc) (a n : OneFile) (id : ℕ)
    → (makings id (zproc_init z) ≡ removals id (zproc_exit z))
      × (makings id (affinity_init a) ≡ removals id (affinity_exit a))
      × (makings id (node_zone_list_init n) ≡ removals id (node_zone_list_exit n))
unfolding zproc_init zproc_exit affinity_init affinity_exit node_zone_list_init node_zone_list_exit
init-exit z a n id =
    let m = proc_create z.mminfo (codes "mminfo") 438 z.proc_dir in
    let p = proc_create z.phys_value (codes "physvalue") 438 z.proc_dir in
    let b = proc_create z.buddy_proc (codes "node0buddy") 292 z.proc_dir in
    let d = proc_mkdir z.proc_dir (codes "zproc") in
    (
      omega (
        arith,
        makings-append id (d ++ m ++ p) b,
        makings-append id (d ++ m) p,
        makings-append id d m,
        removals-append id
            (proc_remove z.mminfo ++ proc_remove z.phys_value ++ proc_remove z.buddy_proc)
            (proc_remove z.proc_dir),
        removals-append id (proc_remove z.mminfo ++ proc_remove z.phys_value)
            (proc_remove z.buddy_proc),
        removals-append id (proc_remove z.mminfo) (proc_remove z.phys_value),
        dir-removed id z.proc_dir (codes "zproc"),
        file-removed id z.mminfo (codes "mminfo") 438 z.proc_dir,
        file-removed id z.phys_value (codes "physvalue") 438 z.proc_dir,
        file-removed id z.buddy_proc (codes "node0buddy") 292 z.proc_dir,
      ),
      one_file-removed id a (codes "cpu_affinity") (codes "get") 438,
      one_file-removed id n (codes "node_zone_list") (codes "info") 292,
    )
