-- ===== src/Chrdev/Ofcd.antt =====
-- src/device_driver/driver3/ofcd.c: a device with a message of 256 bytes. The first driver of the
-- series that registers anything, driver2/ofcd.c, only takes the region.
pub mod Message
pub mod Register
use linux_summary.Base.{
  ℕ, ◌+◌, Bool, true, false, Option, none, some, List, [], ◌++◌, leb, ◌==◌, if◌then◌else◌, take,
  drop, length,
}
use linux_summary.Base.Int.{ℤ, pos, negsuc, efault}
use linux_summary.Chrdev.{Held, nothing, Pointer, is_null, is_object, Copy}

-- `number_opens` and `messages[256]`
pub record Device : Type 0 where
  pub opens : ℕ
  pub messages : List ℕ

abbrev pub message_size : ℕ
message_size = 256

pub my_open : Device → ℤ × Device
my_open d = (pos 0, record d { opens = d.opens + 1 })

pub my_close : Device → ℤ × Device
my_close d = (pos 0, d)

-- The result and what reached the user; `none` for an access outside `messages`. `more` is what
-- `copy_to_user` leaves uncopied.
unfoldable pub my_read : Device → (more len : ℕ) → Option (ℤ × List ℕ)
my_read d more len =
    if leb len message_size
    then (if more == 0 then some (pos len, take len d.messages) else some (efault, []))
    else none

unfoldable pub my_write : Device → Copy → ℕ → Option (ℤ × Device)
my_write d copy len =
    if leb len message_size
    then (let d' = record d { messages = copy.landed ++ drop len d.messages } in
        if copy.more == 0 then some (pos len, d') else some (efault, d'))
    else none

-- The kernel's calls: which of the first two succeed, the class, and the device for a class.
pub record Answers : Type 0 where
  pub alloc : Bool
  pub add : Bool
  pub class_create : Pointer
  pub device_create : Pointer → Pointer

abbrev pub failed : ℤ
failed = negsuc 0

-- `CREATE_NODE` is the configuration that also makes a class and a device. Only NULL is tested
-- for: an error comes as a pointer, and is kept as the class.
unfoldable pub make_node : Answers → Held → ℤ × Held
make_node a h =
    let made = record h { class = is_object a.class_create } in
    let device = a.device_create a.class_create in
    if is_null a.class_create
    then (failed, h)
    else (if is_null device
        then (failed, made)
        else (pos 0, record made { device = is_object device }))

unfoldable pub ofcd_init : (create_node : Bool) → Answers → Held → ℤ × Held
unfolding make_node
ofcd_init create_node a h =
    if a.alloc
    then (if a.add
        then (let added = record h { region = true; cdev = true } in
            if create_node then make_node a added else (pos 0, added))
        else (failed, record h { region = true }))
    else (failed, h)

-- `none` where `device_destroy` is given what is no class.
unfoldable pub ofcd_exit : (create_node : Bool) → Held → Option Held
ofcd_exit create_node h =
    let h' = record h { cdev = false; region = false } in
    if create_node
    then (if h.class then some (record h' { device = false; class = false }) else none)
    else some h'

-- driver2/ofcd.c
unfoldable pub region_init : Bool → Held → ℤ × Held
region_init alloc h = if alloc then (pos 0, record h { region = true }) else (failed, h)

unfoldable pub region_exit : Held → Held
region_exit h = record h { region = false }
