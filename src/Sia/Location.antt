-- ===== src/Sia/Location.antt =====
-- sia/location.go: an object's location, split into its own part and the parts that it shares, and
-- joined again. The digest of a slab and its name are the SDK's.
pub mod Join
pub mod Hosts
use mnemosia.Prelude.{
  ℕ, ◌+◌, ltb, leb, nat_eq, ◌||◌, Bool, List, [], ◌∷◌, ◌++◌, Option, none, some, String,
  string_keys, map_get, map_put, length, map, contains, Comparable, if◌then◌else◌,
}
use mnemosia.Prelude.Exec.{Result, ok, err}
use mnemosia.Sia.Names.{SlabId, ObjectRef}
use mnemosia.Sia.Envelope.{
  Error, nothing_cached, no_slab, few_sectors, few_reachable, Sector, SlabSlice, SealedObject,
  encode_slab, decode_slab, encode_object, decode_object,
}

pub record SlabLocation : Type 0 where
  pub id : SlabId
  pub bytes : List ℕ

pub record Location : Type 0 where
  pub ref : ObjectRef
  pub slabs : List SlabId
  pub bytes : List ℕ

module _ (digest : SlabSlice → List ℕ) (name_of : List ℕ → SlabId) where
  abbrev pub shared_of : SlabSlice → SlabLocation
  shared_of s = record { id = name_of (digest s); bytes = encode_slab s }

  unfoldable pub split_location : ObjectRef → SealedObject → Location × List SlabLocation
  split_location ref sealed = (
    record {
      ref = ref;
      slabs = map (λ s. name_of (digest s)) sealed.slabs;
      bytes = encode_object digest sealed;
    },
    map shared_of sealed.slabs,
  )

-- A slab's shared part, with what the object says of it.
unfoldable pub with_own : SlabSlice → SlabSlice → SlabSlice
with_own own slice = record slice { offset = own.offset; extent = own.extent }

unfoldable pub join_slab : List (SlabId × List ℕ) → SlabId → SlabSlice → Result Error SlabSlice
join_slab shared id own = elim (map_get shared id) [
  | none ↦ err (no_slab id)
  | some encoded ↦ elim (decode_slab encoded) [ ok slice ↦ ok (with_own own slice) | err e ↦ err e ]
]

-- The slabs of the object and their names go in step.
unfoldable pub join_slabs :
    List (SlabId × List ℕ) → List SlabId → List SlabSlice → Result Error (List SlabSlice)
join_slabs shared [] slabs = ok slabs
join_slabs shared ids [] = ok []
join_slabs shared (id ∷ ids) (own ∷ slabs) = elim (join_slab shared id own) [
  | err e ↦ err e
  | ok slice ↦ elim (join_slabs shared ids slabs) [ err e ↦ err e | ok rest ↦ ok (slice ∷ rest) ]
]

put_slabs : SealedObject → Result Error (List SlabSlice) → Result Error SealedObject
put_slabs sealed (ok slabs) = ok (record sealed { slabs = slabs })
put_slabs sealed (err e) = err e

module _ (name_of : List ℕ → SlabId) where
  fill_slabs :
      List (SlabId × List ℕ) → Result Error (SealedObject × List SlabId) → Result Error SealedObject
  unfolding put_slabs
  fill_slabs shared (err e) = err e
  fill_slabs shared (ok (sealed, ids)) = put_slabs sealed (join_slabs shared ids sealed.slabs)

  unfoldable pub join_bytes : List (SlabId × List ℕ) → List ℕ → Result Error SealedObject
  unfolding fill_slabs
  join_bytes shared [] = err nothing_cached
  join_bytes shared bytes = fill_slabs shared (decode_object name_of bytes)

  unfoldable pub join_location : Location → List (SlabId × List ℕ) → Result Error SealedObject
  join_location location shared = join_bytes shared location.bytes

-- Host keys are compared as values.
module _ ⦃keys : Comparable (List ℕ)⦄ (known : List (List ℕ)) where
  unfoldable pub reachable : List Sector → ℕ
  reachable [] = 0
  reachable (s ∷ rest) =
      let others = reachable rest in if contains known s.host_key then others + 1 else others

  -- `checkReachable`, from the slab of this number on.
  unfoldable pub check_reachable : ℕ → List SlabSlice → Option Error
  check_reachable i [] = none
  check_reachable i (s ∷ rest) =
      let others = check_reachable (i + 1) rest in
      if nat_eq s.min_shards 0 || ltb (length s.sectors) s.min_shards
      then some (few_sectors i)
      else if ltb (reachable s.sectors) s.min_shards
      then some (few_reachable i)
      else others
