-- ===== src/Local/Tests.antt =====
-- The theorems on the ledger at small ledgers.
use mnemosia.Prelude.{
  ℕ, ◌+◌, ◌≡◌, refl, true, false, List, none, some, arith, [], ◌∷◌, string_keys, ◌==◌,
  if◌then◌else◌,
}
use mnemosia.Sia.Names.{SlabId}
use mnemosia.Local.Slabs.{releasable_origin, slab_pinned, slab_hydrated, Ledger, track_as}
use mnemosia.Local.Sessions.{HeadRow, row_at}
use mnemosia.Local.Sessions.Versions.{Write, accepted, written, Follows, accepted-Chain}
use mnemosia.Local.Slabs.Origin.{
  adopts, takes, forgets, execute, execute_all, may_release, right_after, counted,
  may_release-execute, right_is_kept, counted-track_as,
}

abbrev ledger : Ledger
ledger =
    record { slab_id = "a"; pinned_at = 1; records = 2; bytes = 20; origin = slab_pinned }
    ∷ record { slab_id = "b"; pinned_at = 2; records = 1; bytes = 10; origin = slab_hydrated }
    ∷ []

may_release-execute_example : may_release "b" (execute takes ledger) ≡ right_after takes "b" ledger
may_release-execute_example = may_release-execute takes "b" ledger

right_is_kept_example :
    may_release "a" (execute_all (adopts "a" 5 1 1 ∷ forgets "b" ∷ []) ledger) ≡ true
unfolding releasable_origin
right_is_kept_example =
    right_is_kept (adopts "a" 5 1 1 ∷ forgets "b" ∷ []) "a" ledger (tt, (refl, tt)) refl

counted-track_as_example :
    (counted (λ row. row.records) "a" (track_as "a" 5 3 30 slab_hydrated ledger)
      ≡ counted (λ row. row.records) "a" ledger + (if ◌==◌ {K = SlabId} "a" "a" then 3 else 0))
    × (counted (λ row. row.bytes) "a" (track_as "a" 5 3 30 slab_hydrated ledger)
        ≡ counted (λ row. row.bytes) "a" ledger + (if ◌==◌ {K = SlabId} "a" "a" then 30 else 0))
counted-track_as_example = counted-track_as "a" "a" 5 3 30 slab_hydrated ledger

abbrev head_of : ℕ → HeadRow
head_of version = record {
  session_id = 5;
  version = version;
  title = "talk";
  summary = "";
  kind = "main";
  project = "";
  agent = "";
  parent = none;
  created_at = 1;
  updated_at = version;
  archived = false;
  messages = 0;
  chunks = 0;
  bytes = 0;
  head = [];
}

-- Two writers read version 3, and one of them then reads version 4.
abbrev race : List Write
race =
    record { row = head_of 4; expect = 3 }
    ∷ record { row = head_of 4; expect = 3 }
    ∷ record { row = head_of 5; expect = 4 }
    ∷ []

stored : row_at 5 (head_of 3 ∷ []) ≡ some (head_of 3)
unfolding row_at
stored = ground arith

accepted-Chain_example :
    Follows 5 (head_of 3) (accepted 5 race (head_of 3 ∷ [])) (written race (head_of 3 ∷ []))
accepted-Chain_example =
    accepted-Chain 5 race (head_of 3 ∷ []) (head_of 3) stored
      (omega arith, (omega arith, (omega arith, tt)))
