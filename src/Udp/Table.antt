-- ===== src/Udp/Table.antt =====
-- src/kernel/linux_network/udp_sock/zudp.c, which lists the sockets of the kernel's table.
use linux_summary.Base.{
  ℕ, zero, suc, ◌+◌, ◌≤◌, ◌<◌, ◌≡◌, refl, ap, ap₂, sym, append_assoc, ℕ_discrete, ◌∙◌, true, ltb,
  if◌then◌else◌, List, [], ◌∷◌, ◌++◌, map, arith,
}

-- What is printed of a socket.
pub record Sock : Type 0 where
  pub dport : ℕ
  pub num : ℕ
  pub daddr : ℕ
  pub rcv_saddr : ℕ

-- A slot of `udp_table.hash`: its count and its sockets.
pub record Slot : Type 0 where
  pub count : ℕ
  pub socks : List Sock

pub data Line : Type 0 where
  table : (mask log : ℕ) → Line
  slot_line : (i count : ℕ) → Line
  sock_line : Sock → Line

unfoldable pub show_slot : ℕ → Slot → List Line
show_slot i slot =
    if ltb 0 slot.count then slot_line i slot.count ∷ map (λ sk. sock_line sk) slot.socks else []

-- The loop with `n` rounds left, from slot `i` on.
unfoldable pub list_slots : (hash : ℕ → Slot) → (n i : ℕ) → List Line
unfolding show_slot
list_slots hash zero i = []
list_slots hash (suc n) i = show_slot i (hash i) ++ list_slots hash n (i + 1)

unfoldable pub zudp_init : (hash : ℕ → Slot) (mask log : ℕ) → List Line
unfolding list_slots
zudp_init hash mask log = table mask log ∷ list_slots hash mask 0

list_slots-agree :
    (hash other : ℕ → Slot) (n i : ℕ)
    → ((j : ℕ) → j < i + n → hash j ≡ other j)
    → list_slots hash n i ≡ list_slots other n i
unfolding list_slots
list_slots-agree hash other zero i h = refl
list_slots-agree hash other (suc n) i h =
    ap₂ ◌++◌ (ap (show_slot i) (h i (omega arith)))
      (list_slots-agree hash other n (i + 1) (λ j less. h j (omega (arith, less))))

list_slots-slot :
    (hash : ℕ → Slot) (n i j : ℕ)
    → i ≤ j
    → j < i + n
    → (before : List Line) × (behind : List Line) × (list_slots hash n i
        ≡ before ++ show_slot j (hash j) ++ behind)
unfolding list_slots
list_slots-slot hash zero i j low high = absurd (omega (arith, low, high))
list_slots-slot hash (suc n) i j low high = elim (ℕ_discrete i j) [
  | yes same ↦ (
    [],
    list_slots hash n (i + 1),
    ap (λ k. show_slot k (hash k) ++ list_slots hash n (i + 1)) same,
  )
  | no differ ↦
      let (before, behind, e) = list_slots-slot hash n (i + 1) j (omega arith) (omega arith) in
      (
        show_slot i (hash i) ++ before,
        behind,
        ap (λ l. show_slot i (hash i) ++ l) e
            ∙ sym (append_assoc (show_slot i (hash i)) (before ++ show_slot j (hash j)) behind)
            ∙ ap (λ l. l ++ behind)
                (sym (append_assoc (show_slot i (hash i)) before (show_slot j (hash j)))),
      )
]

-- Every slot below `mask` that counts a socket is listed, with its sockets. What the slots from
-- `mask` on hold does not show: the last slot, whose number is `mask`, is missing.
pub zudp_init-slots :
    (hash other : ℕ → Slot) (mask log : ℕ)
    → ((i : ℕ) → i < mask → hash i ≡ other i)
    → (zudp_init hash mask log ≡ zudp_init other mask log)
      × ((i : ℕ)
          → i < mask
          → 0 < (hash i).count
          → (before : List Line) × (behind : List Line) × (zudp_init hash mask log
              ≡ before
                ++ (slot_line i (hash i).count ∷ map (λ sk. sock_line sk) (hash i).socks)
                ++ behind))
unfolding zudp_init
zudp_init-slots hash other mask log h = (
  ap (λ l. table mask log ∷ l)
      (list_slots-agree hash other mask 0 (λ j less. h j (omega (arith, less)))),
  λ i less some_sock.
      let (before, behind, e) = list_slots-slot hash mask 0 i (omega arith) (omega (arith, less)) in
      let counts : ltb 0 (hash i).count ≡ true = ground (arith, some_sock) in
      let shown : show_slot i (hash i)
          ≡ slot_line i (hash i).count ∷ map (λ sk. sock_line sk) (hash i).socks =
        rw (show_slot, counts) refl in
      (
        table mask log ∷ before,
        behind,
        ap (λ l. table mask log ∷ l) e ∙ ap (λ l. table mask log ∷ before ++ l ++ behind) shown,
      ),
)
