-- ===== src/Chrdev/Ofcd/Register.antt =====
-- What driver3/ofcd.c has registered after loading and unloading.
use linux_summary.Base.{◌≡◌, ◌⊎◌, Bool, true, ◌&&◌, not, none, some, arith, if◌then◌else◌}
use linux_summary.Base.Int.{pos}
use linux_summary.Chrdev.{nothing, is_null, is_object}
use linux_summary.Chrdev.Ofcd.{Answers, failed, make_node, ofcd_init, ofcd_exit}

-- Every call that `ofcd_init` makes passes its test.
abbrev pub pass : Bool → Answers → Bool
pass node a =
    let made = not (is_null a.class_create) && not (is_null (a.device_create a.class_create)) in
    a.alloc && a.add && (if node then made else true)

-- Loading gives 0 exactly when the region and the cdev are there and, with a node, neither the
-- class nor the device is NULL, and else -1. After 0, what is held is the region, the cdev, and
-- the class and the device where these are no errors; unloading gives all of it back, but hands
-- `device_destroy` what is no class if `class_create` gave an error. After -1, which no unloading
-- follows, the region and the cdev stay as far as they were made.
pub ofcd_init-ofcd_exit :
    (node : Bool) (a : Answers)
    → let (ret, h) = ofcd_init node a nothing in
      let class = node && is_object a.class_create in
      let device = node && is_object (a.device_create a.class_create) in
      ((ret ≡ pos 0) ⊎ (ret ≡ failed))
      × (ret ≡ pos 0 → pass node a ≡ true)
      × (pass node a ≡ true → ret ≡ pos 0)
      × (ret ≡ pos 0
          → (h ≡ record { region = true; cdev = true; class = class; device = device })
            × (ofcd_exit node h ≡ (if node && not class then none else some nothing)))
      × (ret ≡ failed → (h.region ≡ a.alloc) × (h.cdev ≡ (a.alloc && a.add)))
unfolding ofcd_init ofcd_exit make_node
ofcd_init-ofcd_exit node a = ground arith
