-- ===== src/Chrdev/Hello.antt =====
-- src/driver/simple_register_chrdev/hello_chrdev.c. Its message is that of driver3/ofcd.c; its
-- registration hands the kernel's error codes on, and its exit gives back less than was taken.
use linux_summary.Base.{
  ℕ, ◌+◌, ◌≡◌, Bool, true, false, ◌&&◌, Option, none, some, List, [], ◌++◌, leb, not, ◌==◌,
  if◌then◌else◌, take, drop, arith,
}
use linux_summary.Base.Int.{ℤ, pos, ltb_ℤ, efault}
use linux_summary.Chrdev.{Held, nothing, Pointer, is_null, is_object, Copy}

-- `numberOpens` and `message[256]`
pub record Device : Type 0 where
  pub number_opens : ℕ
  pub message : List ℕ

pub dev_open : Device → ℤ × Device
dev_open d = (pos 0, record d { number_opens = d.number_opens + 1 })

pub dev_release : Device → ℤ × Device
dev_release d = (pos 0, d)

pub dev_read : Device → (more len : ℕ) → Option (ℤ × List ℕ)
dev_read d more len =
    if leb len 256
    then (if more == 0 then some (pos len, take len d.message) else some (efault, []))
    else none

pub dev_write : Device → Copy → ℕ → Option (ℤ × Device)
dev_write d copy len =
    if leb len 256
    then (let d' = record d { message = copy.landed ++ drop len d.message } in
        if copy.more == 0 then some (pos len, d') else some (efault, d'))
    else none

-- The kernel's answers: results of `alloc_chrdev_region` and `cdev_add`, whether `cdev_alloc` gives
-- something, the class, and the device for a class.
pub record Answers : Type 0 where
  pub alloc : ℤ
  pub cdev_alloc : Bool
  pub add : ℤ
  pub class_create : Pointer
  pub device_create : Pointer → Pointer

-- `device_create` and what stands before it, behind the region and the cdev.
make_node : Answers → Held → ℤ × Held
make_node a h =
    let made = record h { class = is_object a.class_create } in
    let device = a.device_create a.class_create in
    if is_null a.class_create
    then (efault, h)
    else (if is_null device
        then (efault, made)
        else (pos 0, record made { device = is_object device }))

unfoldable pub hello_init : Answers → Held → ℤ × Held
unfolding make_node
hello_init a h =
    if ltb_ℤ a.alloc (pos 0)
    then (a.alloc, h)
    else (if a.cdev_alloc
        then (if ltb_ℤ a.add (pos 0)
            then (a.add, record h { region = true })
            else make_node a (record h { region = true; cdev = true }))
        else (efault, record h { region = true }))

unfoldable pub hello_exit : Held → Held
hello_exit h = record h { cdev = false; region = false }

-- Loading answers 0 exactly when all five calls pass their tests, and an error of the kernel's or
-- EFAULT otherwise. Unloading after that gives back the region and the cdev, and leaves the class
-- and the device where they were made: a module that is loaded and unloaded does not leave the
-- kernel as it found it.
pub hello_init-hello_exit :
    (a : Answers)
    → let (ret, h) = hello_init a nothing in
      let all =
        not (ltb_ℤ a.alloc (pos 0))
        && a.cdev_alloc
        && not (ltb_ℤ a.add (pos 0))
        && not (is_null a.class_create)
        && not (is_null (a.device_create a.class_create)) in
      (all ≡ true → ret ≡ pos 0)
      × (ret ≡ pos 0 → all ≡ true)
      × (all ≡ false → ltb_ℤ ret (pos 0) ≡ true)
      × (all ≡ true
          → hello_exit h ≡ record nothing {
            class = is_object a.class_create;
            device = is_object (a.device_create a.class_create);
          })
unfolding hello_init hello_exit
hello_init-hello_exit a = ground arith
