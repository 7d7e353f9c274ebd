-- ===== src/Store.antt =====
-- store/store.go: writing a batch of blobs.
use mnemosia.Prelude.{ℕ, ◌+◌, List, [], ◌∷◌, map, String}
use mnemosia.Prelude.Exec.{Exec, pure, ◌>>=◌, ◌>>◌}
use mnemosia.Sia.Names.{SlabId, ObjectRef}
use mnemosia.Sia.Upload.{Placement, slabs, upload_packed, pin_batch}
use mnemosia.Service.{Error, World, Env}

pub record Blob : Type 0 where
  pub cid : String
  pub payload : List ℕ

pub record Written : Type 0 where
  pub cid : String
  pub object_ref : ObjectRef
  pub slab_id : SlabId
  pub bytes : ℕ

pub record Flush : Type 0 where
  pub written : List Written
  pub slabs : List SlabId

abbrev pub empty_flush : Flush
empty_flush = record { written = []; slabs = [] }

-- `Flush.Bytes`
unfoldable pub bytes_of : List Written → ℕ
bytes_of [] = 0
bytes_of (w ∷ rest) = w.bytes + bytes_of rest

-- The blob at each placement's position.
unfoldable pub file_placements : List Blob → List Placement → List Written
file_placements [] placements = []
file_placements blobs [] = []
file_placements (blob ∷ blobs) (p ∷ placements) =
    record { cid = blob.cid; object_ref = p.ref; slab_id = p.slab; bytes = p.bytes }
    ∷ file_placements blobs placements

module _ {D : Type 0} (env : Env) where
  unfoldable pub put_batch : List Blob → Exec (World D) Error Flush
  unfolding upload_packed pin_batch file_placements slabs
  put_batch [] = pure empty_flush
  put_batch blobs = do
    batch ← upload_packed env (map (λ b. b.payload) blobs)
    pin_batch env batch
    pure (record { written = file_placements blobs batch; slabs = slabs batch })
