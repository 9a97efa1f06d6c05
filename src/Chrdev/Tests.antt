-- ===== src/Chrdev/Tests.antt =====
-- The drivers' theorems at concrete inputs.
use linux_summary.Base.{
  ℕ, ◌≡◌, refl, ◌⊎◌, true, false, none, some, List, [], ◌∷◌, replicate, arith, ◌≤◌, ◌<◌,
}
use linux_summary.Base.Int.{pos}
use linux_summary.Chrdev.{nothing, err_ptr, Copy}
use linux_summary.Chrdev.Ofcd.{Device, my_write, Answers, failed, ofcd_init, ofcd_exit}
use linux_summary.Chrdev.Ofcd.Message.{Wrote, my_write-my_read}
use linux_summary.Chrdev.Ofcd.Register.{ofcd_init-ofcd_exit}
use linux_summary.Chrdev.Ztest.{Task, Kernel}

abbrev device : Device
device = record { opens = 0; messages = replicate 256 0 }

abbrev hi : List ℕ
hi = b'h' ∷ b'i' ∷ []

abbrev copy : Copy
copy = record { more = 0; landed = hi }

my_write-my_read_example :
    (2 ≤ 256 → (d' : Device) × (my_write device copy 2 ≡ some (pos 2, d')) × Wrote hi 2 device d')
    × (256 < 2 → my_write device copy 2 ≡ none)
my_write-my_read_example =
    my_write-my_read device hi 2 copy refl (omega arith)
      (record { filled = refl; exact = λ e. refl }) refl

-- The class is an error, and so is its device.
abbrev no_class : Answers
no_class = record {
  alloc = true;
  add = true;
  class_create = err_ptr;
  device_create = λ class. class;
}

ofcd_init-ofcd_exit_example :
    let (ret, h) = ofcd_init true no_class nothing in
    ((ret ≡ pos 0) ⊎ (ret ≡ failed))
    × (ret ≡ pos 0 → true ≡ true)
    × (true ≡ true → ret ≡ pos 0)
    × (ret ≡ pos 0
        → (h ≡ record { region = true; cdev = true; class = false; device = false })
          × (ofcd_exit true h ≡ none))
    × (ret ≡ failed → (h.region ≡ true) × (h.cdev ≡ true))
ofcd_init-ofcd_exit_example = ofcd_init-ofcd_exit true no_class

abbrev shell : Task
shell = record { pid = 7; tgid = 7; state = 1; files = some 100 ∷ none ∷ some 200 ∷ [] }

abbrev kernel : Kernel
kernel = record { tasks = shell ∷ []; current = shell; cpu = 0; find = λ pid. some shell }
