-- ===== src/Sia/Tests.antt =====
-- Runs of sia on one location, and its theorems at them.
use mnemosia.Prelude.{ℕ, ◌≡◌, refl, List, [], ◌∷◌, length, string_keys, arith}
use mnemosia.Prelude.Exec.{ok, err}
use mnemosia.Sia.Names.{SlabId}
use mnemosia.Sia.Reader.{zeros}
use mnemosia.Sia.Envelope.{
  SlabSlice, SealedObject, encode_slab, put_slab, decode_slab, decode_with, panics,
}
use mnemosia.Sia.Envelope.RoundTrip.{FitsSlab, FitsObject}
use mnemosia.Sia.Location.{split_location, join_location}
use mnemosia.Sia.Location.Join.{file_shared, Commits, join_location-split_location}

abbrev digest : SlabSlice → List ℕ
digest s = zeros 32

abbrev name_of : List ℕ → SlabId
name_of d = "slab"

abbrev slice : ℕ → SlabSlice
slice offset = record {
  encryption_key = zeros 32;
  min_shards = 1;
  sectors = record { root = zeros 32; host_key = zeros 32 } ∷ [];
  offset = offset;
  extent = 9;
}

-- An object over two parts of one slab.
abbrev object : SealedObject
object = record {
  data_key = 1 ∷ 2 ∷ [];
  data_signature = zeros 64;
  metadata_key = [];
  metadata = 3 ∷ [];
  metadata_signature = zeros 64;
  created_at = 70000;
  updated_at = 70001;
  slabs = slice 0 ∷ slice 700 ∷ [];
}

zeros_32 : length (zeros 32) ≡ 32
unfolding zeros
zeros_32 = refl

zeros_64 : length (zeros 64) ≡ 64
unfolding zeros
zeros_64 = refl

slice-FitsSlab : (offset : ℕ) → FitsSlab (slice offset)
slice-FitsSlab offset = record {
  key = zeros_32;
  min_shards = omega arith;
  count = omega arith;
  sectors = (record { root = zeros_32; host_key = zeros_32 }, tt);
}

object-FitsObject : FitsObject digest name_of object
object-FitsObject = record {
  data_key = omega arith;
  data_signature = zeros_64;
  metadata_key = omega arith;
  metadata = omega arith;
  metadata_signature = zeros_64;
  created_at = omega arith;
  updated_at = omega arith;
  count = omega arith;
  slabs = (
    record {
      slab = slice-FitsSlab 0;
      digest_size = zeros_32;
      offset = omega arith;
      extent = omega arith;
    },
    (
      record {
        slab = slice-FitsSlab 700;
        digest_size = zeros_32;
        offset = omega arith;
        extent = omega arith;
      },
      tt,
    ),
  );
}

object-Commits : Commits digest name_of object.slabs
unfolding encode_slab put_slab
object-Commits = ((λ same. refl, tt), (tt, tt))

join_location-split_location_example :
    join_location name_of
      (split_location digest name_of 4 object).0
      (file_shared (split_location digest name_of 4 object).1 [])
    ≡ ok object
join_location-split_location_example =
    join_location-split_location digest name_of 4 object object-FitsObject object-Commits

-- The message about the layout reads the first byte.
empty_slab : decode_slab [] ≡ err panics
unfolding decode_slab decode_with
empty_slab = refl
