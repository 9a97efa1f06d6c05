-- ===== src/Mmap/Greeting.antt =====
-- mmap_user.c on the device of mmap_lkm.c.
use linux_summary.Base.{
  Bool-cases, inl, inr, ℕ, ◌-◌, ◌≤◌, ◌<◌, ◌≡◌, refl, Bool, true, false, ltb, none, [], ◌∷◌, arith,
}
use linux_summary.Mmap.{
  dev_size, fresh, Module, loaded, greeting, my_init, my_exit, my_mmap, printed, show, user,
}

user_refused :
    (m : Module) (vm_start vm_end : ℕ) (remaps : Bool)
    → (my_mmap m vm_start vm_end remaps).0 ≡ none
    → user m vm_start vm_end remaps ≡ printed 1 []
unfolding user
user_refused m vm_start vm_end remaps h = elim (Bool-cases m.registered) [
  | inl there ↦ rw (user, there, h) refl
  | inr absent ↦ rw (user, absent) refl
]

too_large :
    (m : Module) (vm_start vm_end : ℕ) (remaps : Bool)
    → m.size < vm_end - vm_start
    → (my_mmap m vm_start vm_end remaps).0 ≡ none
unfolding my_mmap
too_large m vm_start vm_end remaps h =
    let beyond : ltb m.size (vm_end - vm_start) ≡ true = ground (arith, h) in
    rw (my_mmap, beyond) refl

not_remapped :
    (m : Module) (vm_start vm_end : ℕ) (remaps : Bool)
    → remaps ≡ false
    → (my_mmap m vm_start vm_end remaps).0 ≡ none
unfolding my_mmap
not_remapped m vm_start vm_end remaps h = elim (Bool-cases (ltb m.size (vm_end - vm_start))) [
  | inl beyond ↦ rw (my_mmap, beyond) refl
  | inr within ↦ rw (my_mmap, within, h) refl
]

-- With the module loaded and its device registered, the program prints the greeting of the
-- module, from the mapping and from its copy, for an area of up to the module's 4096 bytes that
-- the kernel can map; it fails for a larger one, where the kernel cannot map it, where the device
-- is not registered, and when the module is removed.
pub user-greeting :
    (registers : Bool) (vm_start vm_end : ℕ) (remaps : Bool)
    → let m = fresh registers in
      (my_init true registers ≡ loaded m)
      × (vm_end - vm_start ≤ dev_size
          → registers ≡ true
          → remaps ≡ true
          → user m vm_start vm_end remaps ≡ printed 0 (greeting ∷ greeting ∷ []))
      × (dev_size < vm_end - vm_start → user m vm_start vm_end remaps ≡ printed 1 [])
      × (remaps ≡ false → user m vm_start vm_end remaps ≡ printed 1 [])
      × (registers ≡ false → user m vm_start vm_end remaps ≡ printed 1 [])
      × (user (my_exit m) vm_start vm_end remaps ≡ printed 1 [])
unfolding my_init my_exit user my_mmap show
user-greeting registers vm_start vm_end remaps =
    let m = fresh registers in
    (
      refl,
      λ fits r maps.
          let within : ltb dev_size (vm_end - vm_start) ≡ false = ground (arith, fits) in
          rw (user, r, my_mmap, within, maps) refl,
      λ large. user_refused m vm_start vm_end remaps (too_large m vm_start vm_end remaps large),
      λ h. user_refused m vm_start vm_end remaps (not_remapped m vm_start vm_end remaps h),
      λ h. rw (user, h) refl,
      refl,
    )
