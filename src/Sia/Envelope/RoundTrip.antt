-- ===== src/Sia/Envelope/RoundTrip.antt =====
-- What is written in the layout is read back.
use mnemosia.Prelude.{
  ℕ, ◌<◌, ◌^◌, ◌≡◌, refl, sym, ap, ◌∙◌, subst, List, [], ◌∷◌, append-nil, length, concat, map, All,
}
use mnemosia.Prelude.Exec.{ok}
use mnemosia.Sia.Names.{SlabId}
use mnemosia.Sia.Reader.{
  Reader, Read, open_reader, times, Reads, Reads-fixed, Reads-uint, Reads-sized, Reads-bind,
  Reads-last, Reads-times,
}
use mnemosia.Sia.Envelope.{
  envelope_version, Sector, SlabSlice, SealedObject, blank, put_sector, put_slab, encode_slab,
  read_sector, read_slab, check_failure, decode_with, decode_slab, put_slice, put_object,
  encode_object, read_slice, read_object, decode_object,
}

-- The arrays have their lengths, and the counts fit the two bytes that they are written in.
pub record FitsSector (s : Sector) : Type 0 where
  pub root : length s.root ≡ 32
  pub host_key : length s.host_key ≡ 32

pub record FitsSlab (s : SlabSlice) : Type 0 where
  pub key : length s.encryption_key ≡ 32
  pub min_shards : s.min_shards < 2 ^ 16
  pub count : length s.sectors < 2 ^ 16
  pub sectors : All FitsSector s.sectors

-- The part of a slice that all objects over the slab share.
abbrev pub shared_part : SlabSlice → SlabSlice
shared_part s = record s { offset = 0; extent = 0 }

-- The part that belongs to the object.
abbrev pub own_part : SlabSlice → SlabSlice
own_part s = record blank { offset = s.offset; extent = s.extent }

module _ {A : Type 0} where
  decode_with-Reads :
      (m : Read A) (bytes : List ℕ) (a : A)
      → Reads m bytes a
      → decode_with m (envelope_version ∷ bytes) ≡ ok a
  unfolding decode_with check_failure
  decode_with-Reads m bytes a r =
      ap (λ (b : List ℕ). check_failure (m (open_reader b)).1.failure (m (open_reader b)).0)
        (sym (append-nil bytes))
      ∙ ap (λ (p : A × Reader). check_failure p.1.failure p.0) (r.at [])

map_id : {A : Type 0} (xs : List A) → map (λ x. x) xs ≡ xs
map_id [] = refl
map_id (x ∷ xs) = ap (◌∷◌ x) (map_id xs)

All-map :
    {A : Type 0} {P Q : A → Type 0} (xs : List A) → ((x : A) → P x → Q x) → All P xs → All Q xs
All-map [] f all = tt
All-map (x ∷ xs) f (one, all) = (f x one, All-map xs f all)

read_sector-Reads : (s : Sector) → FitsSector s → Reads read_sector (put_sector s) s
unfolding read_sector put_sector
read_sector-Reads s h =
    Reads-bind _ (Reads-fixed 32 s.root h.root)
      (Reads-last _ (Reads-fixed 32 s.host_key h.host_key))

read_slab-Reads : (s : SlabSlice) → FitsSlab s → Reads read_slab (put_slab s) (shared_part s)
unfolding read_slab put_slab
read_slab-Reads s h = Reads-bind _ (Reads-fixed 32 s.encryption_key h.key) (
    Reads-bind _ (Reads-uint 2 s.min_shards h.min_shards) (
      Reads-bind _ (Reads-uint 2 (length s.sectors) h.count) (
        Reads-last _ (
          subst (Reads (times (length s.sectors) read_sector) (concat (map put_sector s.sectors)))
            (map_id s.sectors)
            (Reads-times read_sector put_sector (λ x. x) s.sectors
              (All-map s.sectors read_sector-Reads h.sectors))))))

-- A slab whose arrays and counts fit reads back as it was, but for the object's own part.
pub decode_slab-encode_slab :
    (s : SlabSlice) → FitsSlab s → decode_slab (encode_slab s) ≡ ok (shared_part s)
unfolding decode_slab encode_slab
decode_slab-encode_slab s h =
    decode_with-Reads read_slab (put_slab s) (shared_part s) (read_slab-Reads s h)

module _ (digest : SlabSlice → List ℕ) (name_of : List ℕ → SlabId) where
  pub record FitsSlice (s : SlabSlice) : Type 0 where
    pub slab : FitsSlab s
    pub digest_size : length (digest s) ≡ 32
    pub offset : s.offset < 2 ^ 32
    pub extent : s.extent < 2 ^ 32

  pub record FitsObject (o : SealedObject) : Type 0 where
    pub data_key : length o.data_key < 2 ^ 32
    pub data_signature : length o.data_signature ≡ 64
    pub metadata_key : length o.metadata_key < 2 ^ 32
    pub metadata : length o.metadata < 2 ^ 32
    pub metadata_signature : length o.metadata_signature ≡ 64
    pub created_at : o.created_at < 2 ^ 64
    pub updated_at : o.updated_at < 2 ^ 64
    pub count : length o.slabs < 2 ^ 16
    pub slabs : All FitsSlice o.slabs

  abbrev pub slab_name : SlabSlice → SlabId
  slab_name s = name_of (digest s)

  read_slice-Reads :
      (s : SlabSlice)
      → FitsSlice s
      → Reads (read_slice name_of) (put_slice digest s) (slab_name s, own_part s)
  unfolding read_slice put_slice
  read_slice-Reads s h = Reads-bind _ (Reads-fixed 32 (digest s) h.digest_size) (
      Reads-bind _ (Reads-uint 4 s.offset h.offset) (Reads-last _ (Reads-uint 4 s.extent h.extent)))

  names-map :
      (xs : List SlabSlice)
      → map (λ (s : SlabId × SlabSlice). s.0) (map (λ s. (slab_name s, own_part s)) xs)
        ≡ map slab_name xs
  names-map [] = refl
  names-map (x ∷ xs) = ap (◌∷◌ (slab_name x)) (names-map xs)

  slices-map :
      (xs : List SlabSlice)
      → map (λ (s : SlabId × SlabSlice). s.1) (map (λ s. (slab_name s, own_part s)) xs)
        ≡ map own_part xs
  slices-map [] = refl
  slices-map (x ∷ xs) = ap (◌∷◌ (own_part x)) (slices-map xs)

  -- What an object reads back as: itself with blank slabs, and their names.
  abbrev pub own_object : SealedObject → SealedObject × List SlabId
  own_object o = (record o { slabs = map own_part o.slabs }, map slab_name o.slabs)

  read_object-Reads :
      (o : SealedObject)
      → FitsObject o
      → Reads (read_object name_of) (put_object digest o) (own_object o)
  unfolding read_object put_object
  read_object-Reads o h =
      subst (Reads (read_object name_of) (put_object digest o))
        (λ i. (record o { slabs = slices-map o.slabs i }, names-map o.slabs i))
        (Reads-bind _ (Reads-sized o.data_key h.data_key) (
          Reads-bind _ (Reads-fixed 64 o.data_signature h.data_signature) (
            Reads-bind _ (Reads-sized o.metadata_key h.metadata_key) (
              Reads-bind _ (Reads-sized o.metadata h.metadata) (
                Reads-bind _ (Reads-fixed 64 o.metadata_signature h.metadata_signature) (
                  Reads-bind _ (Reads-uint 8 o.created_at h.created_at) (
                    Reads-bind _ (Reads-uint 8 o.updated_at h.updated_at) (
                      Reads-bind _ (Reads-uint 2 (length o.slabs) h.count) (
                        Reads-last _ (
                          Reads-times (read_slice name_of) (put_slice digest)
                            (λ s. (slab_name s, own_part s)) o.slabs
                            (All-map o.slabs read_slice-Reads h.slabs)))))))))))

  pub decode_object-encode_object :
      (o : SealedObject)
      → FitsObject o
      → decode_object name_of (encode_object digest o) ≡ ok (own_object o)
  unfolding decode_object encode_object
  decode_object-encode_object o h =
      decode_with-Reads (read_object name_of) (put_object digest o) (own_object o)
        (read_object-Reads o h)
