-- ===== src/Mmap/Tests.antt =====
-- The program on the mapping of a page.
use linux_summary.Base.{◌-◌, ◌≤◌, ◌<◌, ◌≡◌, refl, Bool, true, false, [], ◌∷◌}
use linux_summary.Mmap.{
  dev_size, fresh, loaded, null_write, greeting, my_init, my_exit, printed, user,
}
use linux_summary.Mmap.Greeting.{user-greeting}

-- The result of `kzalloc` is used without a test.
my_init-null : my_init false true ≡ null_write
unfolding my_init
my_init-null = refl

user-greeting_example :
    (my_init true true ≡ loaded (fresh true))
    × (0x8000 - 0x7000 ≤ dev_size
        → ◌≡◌ {A = Bool} true true
        → ◌≡◌ {A = Bool} true true
        → user (fresh true) 0x7000 0x8000 true ≡ printed 0 (greeting ∷ greeting ∷ []))
    × (dev_size < 0x8000 - 0x7000 → user (fresh true) 0x7000 0x8000 true ≡ printed 1 [])
    × (true ≡ false → user (fresh true) 0x7000 0x8000 true ≡ printed 1 [])
    × (true ≡ false → user (fresh true) 0x7000 0x8000 true ≡ printed 1 [])
    × (user (my_exit (fresh true)) 0x7000 0x8000 true ≡ printed 1 [])
user-greeting_example = user-greeting true 0x7000 0x8000 true
