-- ===== src/Numa/Masks.antt =====
-- How much of the masks the kernel may use.
use linux_summary.Base.{
  ℕ, zero, suc, ◌+◌, ◌-◌, ◌*◌, ◌/◌, ◌^◌, ◌≤◌, ◌<◌, ◌≡◌, refl, le→leb, Option, none, some, List, ◌∷◌,
  replicate, length, length-replicate, get_elem?, arith,
}
use linux_summary.Numa.{perlength, mask_bytes, shown, beyond_mask, numaget, numaset_mask}

mask_bytes-small : (maxnode : ℕ) → maxnode < 2 ^ 63 → mask_bytes maxnode ≡ (maxnode + 7) / 8 * 8
unfolding mask_bytes
mask_bytes-small maxnode h = omega (arith, h)

get_elem?-replicate : (n i : ℕ) → i < n → get_elem? (replicate {A = Option ℕ} n none) i ≡ some none
get_elem?-replicate zero i h = absurd (omega (arith, h))
get_elem?-replicate (suc n) zero h = refl
get_elem?-replicate (suc n) (suc i) h = get_elem?-replicate n i (omega (arith, h))

-- For every number of nodes from 1 on: the mask has room for a bit for each, in whole words, and
-- both programs find its first word; with 0 neither does. In the mask that numaset.c hands over,
-- only the first word was written: none of those behind it, which hold the bits of the nodes from
-- 64 on.
pub mask-room :
    (maxnode mask0 mode : ℕ) (word : ℕ)
    → maxnode < 2 ^ 63
    → (0 < maxnode
        → ((maxnode + 63) / 64 * 8 ≤ mask_bytes maxnode)
          × (numaget maxnode (some mode) (some (mode, word)) ≡ shown mode word)
          × ((mask : List (Option ℕ)) × (numaset_mask maxnode mask0 ≡ some mask)
              × (length mask ≡ mask_bytes maxnode / 8)
              × (get_elem? mask 0 ≡ some (some mask0))
              × ((i : ℕ) → 0 < i → i < (maxnode + 63) / 64 → get_elem? mask i ≡ some none)))
      × (numaget 0 (some mode) (some (mode, word)) ≡ beyond_mask)
      × (numaset_mask 0 mask0 ≡ none)
unfolding numaget numaset_mask
mask-room maxnode mask0 mode word small =
    let size = mask_bytes-small maxnode small in
    let words = mask_bytes maxnode / 8 in
    (
      λ some_node.
          let room : perlength ≤ mask_bytes maxnode = omega (arith, size, some_node) in
          let first : 1 ≤ words = omega (arith, room) in
          (
            omega (arith, size, some_node),
            rw (numaget, le→leb perlength (mask_bytes maxnode) room) refl,
            (
              some mask0 ∷ replicate (words - 1) none,
              rw (numaset_mask, le→leb 1 words first) refl,
              omega (arith, length-replicate {A = Option ℕ} (words - 1) none, first),
              refl,
              unset,
            ),
          ),
      refl,
      refl,
    )
  where
    unset :
        (i : ℕ)
        → 0 < i
        → i < (maxnode + 63) / 64
        → get_elem? (some mask0 ∷ replicate (mask_bytes maxnode / 8 - 1) none) i ≡ some none
    unset zero low high = absurd (omega (arith, low))
    unset (suc i) low high =
        get_elem?-replicate (mask_bytes maxnode / 8 - 1) i
          (omega (arith, high, mask_bytes-small maxnode small))
