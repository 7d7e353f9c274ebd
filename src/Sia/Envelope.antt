-- ===== src/Sia/Envelope.antt =====
-- sia/envelope.go: the fixed layout of a cached location. An array of bytes is a list; a time is its
-- `UnixNano` as a number of 64 bits.
pub mod RoundTrip
use mnemosia.Prelude.{
  ℕ, nat_eq, List, [], ◌∷◌, ◌++◌, Option, none, some, length, concat, map, if◌then◌else◌,
}
use mnemosia.Prelude.Exec.{Result, ok, err}
use mnemosia.Bytes.{to_bytes}
use mnemosia.Sia.Names.{SlabId}
use mnemosia.Sia.Reader.{
  Reader, Read, open_reader, ◌>>=◌, pure, fixed, uint, sized, times, sized_bytes,
}

abbrev pub envelope_version : ℕ
envelope_version = 1

-- Of the SDK's types, what the layout keeps.
pub record Sector : Type 0 where
  pub root : List ℕ
  pub host_key : List ℕ

pub record SlabSlice : Type 0 where
  pub encryption_key : List ℕ
  pub min_shards : ℕ
  pub sectors : List Sector
  pub offset : ℕ
  pub extent : ℕ

pub record SealedObject : Type 0 where
  pub data_key : List ℕ
  pub data_signature : List ℕ
  pub metadata_key : List ℕ
  pub metadata : List ℕ
  pub metadata_signature : List ℕ
  pub created_at : ℕ
  pub updated_at : ℕ
  pub slabs : List SlabSlice

abbrev blank : SlabSlice
blank = record { encryption_key = []; min_shards = 0; sectors = []; offset = 0; extent = 0 }

-- All but `panics` are an `ErrStaleLocation`; a byte of an empty slice is read in `panics`.
pub data Error : Type 0 where
  other_layout : ℕ → Error
  truncated : ℕ → ℕ → Error
  nothing_cached panics : Error
  no_slab : SlabId → Error
  few_sectors few_reachable : ℕ → Error

unfoldable pub put_sector : Sector → List ℕ
put_sector s = s.root ++ s.host_key

-- The fields of a slab after the version.
unfoldable pub put_slab : SlabSlice → List ℕ
unfolding put_sector
put_slab s =
    s.encryption_key
    ++ (to_bytes 2 s.min_shards
        ++ (to_bytes 2 (length s.sectors) ++ concat (map put_sector s.sectors)))

unfoldable pub encode_slab : SlabSlice → List ℕ
encode_slab s = envelope_version ∷ put_slab s

unfoldable pub read_sector : Read Sector
read_sector = do
  root ← fixed 32
  host_key ← fixed 32
  pure (record { root = root; host_key = host_key })

unfoldable pub read_slab : Read SlabSlice
read_slab = do
  key ← fixed 32
  min_shards ← uint 2
  count ← uint 2
  sectors ← times count read_sector
  pure (record blank { encryption_key = key; min_shards = min_shards; sectors = sectors })

module _ {A : Type 0} where
  check_failure : Option (ℕ × ℕ) → A → Result Error A
  check_failure none a = ok a
  check_failure (some (wanted, there)) a = err (truncated wanted there)

  -- The version is read first, and its message reads the first byte again.
  unfoldable pub decode_with : Read A → List ℕ → Result Error A
  unfolding check_failure
  decode_with m [] = err panics
  decode_with m (b ∷ bytes) =
      if nat_eq b envelope_version
      then (let (a, r) = m (open_reader bytes) in check_failure r.failure a)
      else err (other_layout b)

unfoldable pub decode_slab : List ℕ → Result Error SlabSlice
decode_slab bytes = decode_with read_slab bytes

module _ (digest : SlabSlice → List ℕ) where
  unfoldable pub put_slice : SlabSlice → List ℕ
  put_slice s = digest s ++ (to_bytes 4 s.offset ++ to_bytes 4 s.extent)

  unfoldable pub put_object : SealedObject → List ℕ
  unfolding put_slice
  put_object o =
      sized_bytes o.data_key
      ++ (o.data_signature
          ++ (sized_bytes o.metadata_key
              ++ (sized_bytes o.metadata
                  ++ (o.metadata_signature
                      ++ (to_bytes 8 o.created_at
                          ++ (to_bytes 8 o.updated_at
                              ++ (to_bytes 2 (length o.slabs)
                                  ++ concat (map put_slice o.slabs))))))))

  unfoldable pub encode_object : SealedObject → List ℕ
  encode_object o = envelope_version ∷ put_object o

module _ (name_of : List ℕ → SlabId) where
  -- A slab's name, and its slice with only the object's own part.
  unfoldable pub read_slice : Read (SlabId × SlabSlice)
  read_slice = do
    digest ← fixed 32
    offset ← uint 4
    extent ← uint 4
    pure (name_of digest, record blank { offset = offset; extent = extent })

  unfoldable pub read_object : Read (SealedObject × List SlabId)
  read_object = do
    data_key ← sized
    data_signature ← fixed 64
    metadata_key ← sized
    metadata ← sized
    metadata_signature ← fixed 64
    created_at ← uint 8
    updated_at ← uint 8
    count ← uint 2
    slices ← times count read_slice
    pure (
      record {
        data_key = data_key;
        data_signature = data_signature;
        metadata_key = metadata_key;
        metadata = metadata;
        metadata_signature = metadata_signature;
        created_at = created_at;
        updated_at = updated_at;
        slabs = map (λ s. s.1) slices;
      },
      map (λ s. s.0) slices,
    )

  unfoldable pub decode_object : List ℕ → Result Error (SealedObject × List SlabId)
  decode_object bytes = decode_with read_object bytes
