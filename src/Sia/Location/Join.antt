-- ===== src/Sia/Location/Join.antt =====
-- A location that was split is joined again.
use mnemosia.Prelude.{
  ℕ, ◌≡◌, refl, ap, ◌∙◌, List, [], ◌∷◌, some, string_keys, ◌==◌, map_get, map_put, map_get-map_put,
  map, All, Bool, true, false, arith,
}
use text.Mathlib.TextEquality.{eq_iff}
use mnemosia.Prelude.Exec.{ok}
use mnemosia.Sia.Names.{SlabId, ObjectRef}
use mnemosia.Sia.Envelope.{SlabSlice, SealedObject, encode_slab, encode_object}
use mnemosia.Sia.Envelope.RoundTrip.{
  FitsSlab, FitsSlice, FitsObject, own_part, slab_name, own_object, decode_slab-encode_slab,
  decode_object-encode_object,
}
use mnemosia.Sia.Location.{
  SlabLocation, shared_of, split_location, with_own, join_slab, join_slabs, put_slabs, fill_slabs,
  join_bytes, join_location,
}

-- The shared parts, one under each name.
unfoldable pub file_shared : List SlabLocation → List (SlabId × List ℕ) → List (SlabId × List ℕ)
file_shared [] m = m
file_shared (s ∷ rest) m = file_shared rest (map_put m s.id s.bytes)

module _ (digest : SlabSlice → List ℕ) (name_of : List ℕ → SlabId) where
  abbrev name : SlabSlice → SlabId
  name = slab_name digest name_of

  -- Slabs of the same name have the same shared part.
  abbrev AgreesWith : SlabSlice → SlabSlice → Type 0
  AgreesWith s x = name x ≡ name s → encode_slab x ≡ encode_slab s

  abbrev pub Commits : List SlabSlice → Type 0
  Commits [] = Unit
  Commits (s ∷ xs) = All (AgreesWith s) xs × Commits xs

  -- The map has the slab's shared part under its name.
  abbrev Holds : List (SlabId × List ℕ) → SlabSlice → Type 0
  Holds m s = map_get m (name s) ≡ some (encode_slab s)

  put_self :
      (x : SlabSlice) (m : List (SlabId × List ℕ)) → Holds (map_put m (name x) (encode_slab x)) x
  put_self x m =
      ground (arith, map_get-map_put m (name x) (encode_slab x) (name x), eq_iff (name x) (name x))

  put_other :
      (x s : SlabSlice) (same : Bool) (m : List (SlabId × List ℕ))
      → AgreesWith s x
      → Holds m s
      → (name x == name s) ≡ same
      → Holds (map_put m (name x) (encode_slab x)) s
  put_other x s true m c h e = ground (
    arith,
    map_get-map_put m (name x) (encode_slab x) (name s),
    e,
    c ((eq_iff (name x) (name s)).0 e),
  )
  put_other x s false m c h e =
      ground (arith, map_get-map_put m (name x) (encode_slab x) (name s), e, h)

  file_shared-keeps :
      (xs : List SlabSlice) (m : List (SlabId × List ℕ)) (s : SlabSlice)
      → All (AgreesWith s) xs
      → Holds m s
      → Holds (file_shared (map (shared_of digest name_of) xs) m) s
  unfolding file_shared
  file_shared-keeps [] m s c h = h
  file_shared-keeps (x ∷ xs) m s (a, c) h =
      file_shared-keeps xs (map_put m (name x) (encode_slab x)) s c
        (put_other x s (name x == name s) m a h refl)

  file_shared-Holds :
      (xs : List SlabSlice) (m : List (SlabId × List ℕ))
      → Commits xs
      → All (Holds (file_shared (map (shared_of digest name_of) xs) m)) xs
  unfolding file_shared
  file_shared-Holds [] m c = tt
  file_shared-Holds (x ∷ xs) m (c, cs) = (
    file_shared-keeps xs (map_put m (name x) (encode_slab x)) x c (put_self x m),
    file_shared-Holds xs (map_put m (name x) (encode_slab x)) cs,
  )

  join_slab-Holds :
      (m : List (SlabId × List ℕ)) (s : SlabSlice)
      → FitsSlab s
      → Holds m s
      → join_slab m (name s) (own_part s) ≡ ok s
  unfolding join_slab with_own
  join_slab-Holds m s f h = ground (arith, h, decode_slab-encode_slab s f)

  join_slabs-Holds :
      (m : List (SlabId × List ℕ)) (xs : List SlabSlice)
      → All (FitsSlice digest name_of) xs
      → All (Holds m) xs
      → join_slabs m (map name xs) (map own_part xs) ≡ ok xs
  unfolding join_slabs
  join_slabs-Holds m [] f h = refl
  join_slabs-Holds m (x ∷ xs) (f, fs) (h, hs) =
      ground (arith, join_slab-Holds m x f.slab h, join_slabs-Holds m xs fs hs)

  -- Where the arrays and counts fit the layout and slabs of the object that have one name have one
  -- shared part, the parts of a split location join to the object that was split.
  pub join_location-split_location :
      (ref : ObjectRef) (o : SealedObject)
      → FitsObject digest name_of o
      → Commits o.slabs
      → let parts = split_location digest name_of ref o in
        join_location name_of parts.0 (file_shared parts.1 []) ≡ ok o
  unfolding split_location join_location join_bytes encode_object put_slabs fill_slabs
  join_location-split_location ref o f c =
      ap (fill_slabs name_of shared) (decode_object-encode_object digest name_of o f)
      ∙ ap (put_slabs (own_object digest name_of o).0)
          (join_slabs-Holds shared o.slabs f.slabs (file_shared-Holds o.slabs [] c))
    where
      shared : List (SlabId × List ℕ)
      shared = file_shared (map (shared_of digest name_of) o.slabs) []
