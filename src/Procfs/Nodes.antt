-- ===== src/Procfs/Nodes.antt =====
-- The file info of src/kernel/linux_memory/node_zone_list/node_zone_list.c: the nodes and their
-- zones.
use linux_summary.Base.{
  ℕ, zero, suc, ◌+◌, ◌-◌, ◌≤◌, ◌<◌, ◌≡◌, refl, ap, ap₂, ==_iff, sym, ◌∙◌, Bool, true, false,
  if◌then◌else◌, ◌==◌, Option, none, some, List, [], ◌∷◌, ◌++◌, Bool-cases, inl, inr, arith,
}
use linux_summary.Base.Text.{codes, digits}
use linux_summary.Procfs.Buddy.{decimal, pad}

pub record Zone : Type 0 where
  pub populated : Bool
  pub name : List ℕ
  pub zone_start_pfn : ℕ
  pub present_pages : ℕ

-- `pg_data_t`
pub record Node : Type 0 where
  pub node_id : ℕ
  pub nr_zones : ℕ
  pub node_start_pfn : ℕ
  pub node_present_pages : ℕ
  pub node_zones : List Zone

-- `0x%lx`
abbrev pub hex : ℕ → List ℕ
hex n = codes "0x" ++ digits b'a' 16 16 n

unfoldable pub node_line : Node → List ℕ
node_line n =
    codes "node_id:"
    ++ decimal n.node_id
    ++ codes " nr_zones:"
    ++ decimal n.nr_zones
    ++ codes " node_start_pfn:"
    ++ hex n.node_start_pfn
    ++ codes " node_present_pages:"
    ++ hex n.node_present_pages
    ++ b'\n' ∷ []

unfoldable pub zone_line : Zone → List ℕ
zone_line z =
    b'\t' ∷ codes " zone: "
    ++ pad 8 z.name
    ++ codes " zone_start_pfn:"
    ++ hex z.zone_start_pfn
    ++ codes " present_pages:"
    ++ hex z.present_pages
    ++ b'\n' ∷ []

-- The loop over the zones.
unfoldable pub zone_lines : List Zone → List (List ℕ)
unfolding zone_line
zone_lines [] = []
zone_lines (z ∷ zones) =
    let rest = zone_lines zones in if z.populated then zone_line z ∷ rest else rest

-- What the kernel has: `MAX_NUMNODES`, the first node that is online, the next one, and `NODE_DATA`.
pub record Nodes : Type 0 where
  pub max_numnodes : ℕ
  pub first_online_node : ℕ
  pub next_online_node : ℕ → ℕ
  pub node_data : ℕ → Node

-- The lines of a node, in front of those of the next ones.
abbrev pub with_node : Node → Option (List (List ℕ)) → Option (List (List ℕ))
with_node pgdat none = none
with_node pgdat (some rest) = some (node_line pgdat ∷ zone_lines pgdat.node_zones ++ rest)

-- `while (nid != MAX_NUMNODES)`, with one unit of fuel for each round: the lines, none without fuel.
unfoldable pub show_nodes : Nodes → (fuel nid : ℕ) → Option (List (List ℕ))
unfolding node_line zone_lines
show_nodes k zero nid = none
show_nodes k (suc fuel) nid =
    let pgdat = k.node_data nid in
    let more = with_node pgdat (show_nodes k fuel (k.next_online_node pgdat.node_id)) in
    if nid == k.max_numnodes then some [] else more

unfoldable pub info_show : Nodes → Option (List (List ℕ))
unfolding show_nodes
info_show k = show_nodes k (suc k.max_numnodes) k.first_online_node

-- What the kernel says of the nodes that are online.
pub record IsNodes (k : Nodes) (online : ℕ → Bool) : Type 0 where
  pub id : (nid : ℕ) → online nid ≡ true → (k.node_data nid).node_id ≡ nid
  pub first_within : k.first_online_node ≤ k.max_numnodes
  pub first_online : k.first_online_node < k.max_numnodes → online k.first_online_node ≡ true
  pub none_before : (i : ℕ) → i < k.first_online_node → online i ≡ false
  pub next_behind : (nid : ℕ) → nid < k.max_numnodes → nid < k.next_online_node nid
  pub next_within : (nid : ℕ) → nid < k.max_numnodes → k.next_online_node nid ≤ k.max_numnodes
  pub next_online :
      (nid : ℕ) → k.next_online_node nid < k.max_numnodes → online (k.next_online_node nid) ≡ true
  pub none_between : (nid i : ℕ) → nid < i → i < k.next_online_node nid → online i ≡ false

-- The lines of the `n` nodes from `nid` on, of those that are online.
abbrev pub lines_from : Nodes → (ℕ → Bool) → (n nid : ℕ) → List (List ℕ)
lines_from k online zero nid = []
lines_from k online (suc n) nid =
    let pgdat = k.node_data nid in
    let rest = lines_from k online n (nid + 1) in
    if online nid then (node_line pgdat ∷ zone_lines pgdat.node_zones) ++ rest else rest

module _ (k : Nodes) (online : ℕ → Bool) where
  -- Nodes that are not online are passed over.
  lines_from-skip :
      (d n nid : ℕ)
      → ((i : ℕ) → nid ≤ i → i < nid + d → online i ≡ false)
      → lines_from k online (d + n) nid ≡ lines_from k online n (nid + d)
  lines_from-skip zero n nid h = ap₂ (lines_from k online) (omega arith) (omega arith)
  lines_from-skip (suc d) n nid h =
      let off = h nid (omega arith) (omega arith) in
      let more : suc d + n ≡ suc (d + n) = omega arith in
      rw (more, off)
        (lines_from-skip d n (nid + 1)
            (λ i low high. h i (omega (arith, low)) (omega (arith, high)))
          ∙ ap (lines_from k online n) (omega arith))

  show_nodes-lines :
      IsNodes k online
      → (fuel nid : ℕ) → nid ≤ k.max_numnodes
      → (nid < k.max_numnodes → online nid ≡ true)
      → k.max_numnodes - nid < fuel
      → show_nodes k fuel nid ≡ some (lines_from k online (k.max_numnodes - nid) nid)
  unfolding show_nodes
  show_nodes-lines is zero nid within on h = absurd (omega (arith, h))
  show_nodes-lines is (suc fuel) nid within on h = elim (Bool-cases (nid == k.max_numnodes)) [
    | inl end ↦
        let none_left : k.max_numnodes - nid ≡ 0 =
          omega (arith, (==_iff nid k.max_numnodes).0 end) in
        rw (show_nodes, end, none_left) refl
    | inr more ↦
        let less : nid < k.max_numnodes = ground (arith, more, within) in
        let next = k.next_online_node nid in
        let behind = is.next_behind nid less in
        let up_to = is.next_within nid less in
        let here = on less in
        let rest : show_nodes k fuel (k.next_online_node (k.node_data nid).node_id)
            ≡ some (lines_from k online (k.max_numnodes - next) next) =
          ap (λ i. show_nodes k fuel (k.next_online_node i)) (is.id nid here)
          ∙ show_nodes-lines is fuel next up_to (is.next_online nid)
              (omega (arith, behind, h, less)) in
        let count : k.max_numnodes - nid ≡ suc ((next - nid - 1) + (k.max_numnodes - next)) =
          omega (arith, behind, up_to) in
        let skipped =
          lines_from-skip (next - nid - 1) (k.max_numnodes - next) (nid + 1) (λ i low high.
            is.none_between nid i (omega (arith, low)) (omega (arith, high, behind))) in
        let to_next : nid + 1 + (next - nid - 1) ≡ next = omega (arith, behind) in
        let pgdat = k.node_data nid in
        let shown = node_line pgdat ∷ zone_lines pgdat.node_zones in
        let lines : lines_from k online (k.max_numnodes - nid) nid
            ≡ shown ++ lines_from k online (k.max_numnodes - next) next =
          ap (λ c. lines_from k online c nid) count
          ∙ rw here (
              ap (λ l. shown ++ l)
                (skipped ∙ ap (lines_from k online (k.max_numnodes - next)) to_next)) in
        rw (show_nodes, more, rest) (ap (λ l. some l) (sym lines))
  ]

-- The nodes below `MAX_NUMNODES` that are online are all shown, in their order and each once, with
-- their zones that have pages; the loop ends, as each round leads to a later node.
pub info_show-lines :
    (k : Nodes) (online : ℕ → Bool)
    → IsNodes k online
    → info_show k ≡ some (lines_from k online k.max_numnodes 0)
unfolding info_show
info_show-lines k online is =
    let first = k.first_online_node in
    let shown =
      show_nodes-lines k online is (suc k.max_numnodes) first is.first_within is.first_online
        (omega arith) in
    let skipped =
      lines_from-skip k online first (k.max_numnodes - first) 0
        (λ i low high. is.none_before i (omega (arith, high))) in
    let all : first + (k.max_numnodes - first) ≡ k.max_numnodes = omega (arith, is.first_within) in
    let from : 0 + first ≡ first = omega arith in
    let lines : lines_from k online k.max_numnodes 0
        ≡ lines_from k online (k.max_numnodes - first) first =
      ap (λ n. lines_from k online n 0) (sym all)
      ∙ skipped
      ∙ ap (lines_from k online (k.max_numnodes - first)) from in
    shown ∙ ap (λ l. some l) (sym lines)
