-- ===== src/Sia/Location/Hosts.antt =====
-- Which slabs may be read from the hosts that the network lists.
use mnemosia.Prelude.{
  ℕ, ◌+◌, ◌≤◌, ◌<◌, ◌≡◌, refl, ◌↔◌, List, [], ◌∷◌, none, length, All, Comparable, arith,
}
use mnemosia.Sia.Envelope.{SlabSlice}
use mnemosia.Sia.Location.{reachable, check_reachable}

-- What is asked of a slab before it is read.
pub IsReadable : Comparable (List ℕ) → List (List ℕ) → SlabSlice → Type 0
IsReadable keys known s =
    (0 < s.min_shards)
    × (s.min_shards ≤ length s.sectors)
    × (s.min_shards ≤ reachable ⦃keys = keys⦄ known s.sectors)

module _ ⦃keys : Comparable (List ℕ)⦄ (known : List (List ℕ)) where
  -- Slabs are accepted exactly when each wants a shard at least, has as many sectors as it wants
  -- shards, and has as many on hosts that the network lists.
  pub check_reachable-none_iff :
      (i : ℕ) (slabs : List SlabSlice)
      → (check_reachable known i slabs ≡ none) ↔ All (IsReadable keys known) slabs
  unfolding check_reachable IsReadable
  check_reachable-none_iff i [] = (λ _. tt, λ _. refl)
  check_reachable-none_iff i (s ∷ slabs) = (
    λ h. (
      (ground arith, ground arith, ground arith),
      (check_reachable-none_iff (i + 1) slabs).0 (ground arith),
    ),
    λ (one, all).
        let rest : check_reachable known (i + 1) slabs ≡ none =
          (check_reachable-none_iff (i + 1) slabs).1 all in
        ground (arith, one, rest),
  )
