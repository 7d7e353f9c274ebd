-- ===== src/Sia/Upload.antt =====
-- sia/upload.go and the pinning half of sia/pin.go: a batch of blobs goes up as one packed upload,
-- and is then pinned, its slabs first.
use mnemosia.Prelude.{
  ℕ, List, [], ◌∷◌, map, ◌==◌, nat_eq, string_keys, include, length, if◌then◌else◌,
}
use mnemosia.Prelude.Exec.{Exec, pure, fail, ◌>>=◌, ◌>>◌}
use mnemosia.Sia.Names.{SlabId, ObjectRef}
use mnemosia.Service.{
  Error, wrong_count, World, Env, finalize_upload, pin_slabs, pin_objects, ask, act,
}

-- A placement, and the slabs of the slices of the object that the batch keeps beside it.
pub record Placement : Type 0 where
  pub ref : ObjectRef
  pub slab : SlabId
  pub bytes : ℕ
  pub slices : List SlabId

-- `Batch.Slabs`: the distinct slabs, in order, but for "".
unfoldable pub slabs_from : List SlabId → List Placement → List SlabId
slabs_from seen [] = seen
slabs_from seen (p ∷ rest) = slabs_from (if p.slab == "" then seen else include p.slab seen) rest

unfoldable pub slabs : List Placement → List SlabId
unfolding slabs_from
slabs = slabs_from []

-- The distinct slabs of all slices.
unfoldable pub include_slices : List SlabId → List SlabId → List SlabId
include_slices [] seen = seen
include_slices (s ∷ slices) seen = include_slices slices (include s seen)

unfoldable pub sliced_from : List SlabId → List Placement → List SlabId
sliced_from seen [] = seen
sliced_from seen (p ∷ rest) = sliced_from (include_slices p.slices seen) rest

-- `slabOf`
unfoldable pub slab_of : List SlabId → SlabId
slab_of [] = ""
slab_of (s ∷ slices) = s

-- The placement of each object beside the payload that it holds.
unfoldable pub place : List (ObjectRef × List SlabId) → List (List ℕ) → List Placement
place [] payloads = []
place objects [] = []
place ((ref, slices) ∷ objects) (payload ∷ payloads) =
    record { ref = ref; slab = slab_of slices; bytes = length payload; slices = slices }
    ∷ place objects payloads

module _ {D : Type 0} (env : Env) where
  unfoldable pub upload_packed : List (List ℕ) → Exec (World D) Error (List Placement)
  unfolding place
  upload_packed [] = pure []
  upload_packed payloads = do
    objects ← ask (finalize_upload payloads) (λ calls. env.on_finalize calls payloads)
    if nat_eq (length objects) (length payloads)
        then pure (place objects payloads)
        else fail wrong_count

  -- `PinSlabs`, of the distinct slabs of all slices.
  unfoldable pub pin_sliced : List SlabId → Exec (World D) Error (Unit {0})
  pin_sliced [] = pure tt
  pin_sliced (s ∷ rest) = act env (pin_slabs (s ∷ rest))

  unfoldable pub pin_batch : List Placement → Exec (World D) Error (Unit {0})
  pin_batch [] = pure tt
  pin_batch batch = do
    pin_sliced (sliced_from [] batch)
    act env (pin_objects (map (λ p. p.ref) batch))
