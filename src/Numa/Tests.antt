-- ===== src/Numa/Tests.antt =====
-- The masks for the default number of nodes.
use linux_summary.Base.{◌≡◌, refl}
use linux_summary.Numa.{mask_bytes}

-- The number of nodes is taken for a number of bytes: eight times what is needed.
mask_bytes-default : mask_bytes 1025 ≡ 1032
unfolding mask_bytes
mask_bytes-default = refl
