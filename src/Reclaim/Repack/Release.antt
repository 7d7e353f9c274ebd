-- ===== src/Reclaim/Repack/Release.antt =====
-- What a repack destroys, and when, whatever the services answer.
use text.Mathlib.TextEquality.{eq_iff}
use mnemosia.Prelude.{
  ℕ, ◌≡◌, refl, sym, subst, ap, ◌∙◌, ◌==◌, include, contains-include, ==_refl, if◌then◌else◌, arith,
  ◌⊎◌, List, [], ◌∷◌, map, none, true, false, nat_eq, length, All, contains, string_keys,
}
use mnemosia.Prelude.Exec.{fail, Runs-error, Runs, Runs-bind, Runs-pure, Runs-given, Runs-if, ok}
use mnemosia.Sia.Names.{SlabId, ObjectRef}
use mnemosia.Sia.Upload.{
  Placement, slabs, slabs_from, sliced_from, include_slices, slab_of, place, upload_packed,
  pin_sliced, pin_batch,
}
use mnemosia.Store.{Blob, put_batch}
use mnemosia.Service.{
  Call, Calls, wrong_count, finalize_upload, pin_slabs, pin_objects, callback, delete_objects,
  unpin_slab, Env, World,
}
use mnemosia.Service.Keeps.{Runs-ask, Runs-act}
use mnemosia.Reclaim.Repack.{Held, sources}

-- The caller has been told of the new locations, and has answered with no error.
abbrev pub Catalogued : Env → Calls → Type 0
Catalogued env [] = ⊥
Catalogued env (callback refs ∷ earlier) =
    (env.on_act earlier (callback refs) ≡ none) ⊎ Catalogued env earlier
Catalogued env (_ ∷ earlier) = Catalogued env earlier

-- No earlier call pinned the slab.
abbrev pub NotPinned : SlabId → Call → Type 0
NotPinned id (pin_slabs ids) = contains ids id ≡ false
NotPinned id _ = Unit

-- Each call to delete objects names those that the records were at, each call to unpin a slab names
-- one that they were on and that was not pinned anew, and either comes after the caller has
-- catalogued the new locations. The latest call is the first.
abbrev pub IsJustified : Env → List Held → Calls → Type 0
IsJustified env held [] = Unit
IsJustified env held (unpin_slab id ∷ earlier) =
    (contains (sources held []) id ≡ true)
    × All (NotPinned id) earlier
    × Catalogued env earlier
    × IsJustified env held earlier
IsJustified env held (delete_objects refs ∷ earlier) =
    (refs ≡ map (λ h. h.ref) held) × Catalogued env earlier × IsJustified env held earlier
IsJustified env held (_ ∷ earlier) = IsJustified env held earlier

-- The calls that pin, so far: of these slabs, or none.
abbrev pub PinsOnly : List SlabId → Call → Type 0
PinsOnly ids (pin_slabs pinned) = pinned ≡ ids
PinsOnly ids _ = Unit

abbrev pub NoPins : Call → Type 0
NoPins (pin_slabs pinned) = ⊥
NoPins _ = Unit

abbrev pub IsPlain : Call → Type 0
IsPlain (unpin_slab id) = ⊥
IsPlain (delete_objects refs) = ⊥
IsPlain (pin_slabs ids) = ⊥
IsPlain (callback refs) = ⊥
IsPlain _ = Unit

NoPins-PinsOnly : (ids : List SlabId) (calls : Calls) → All NoPins calls → All (PinsOnly ids) calls
NoPins-PinsOnly ids [] h = tt
NoPins-PinsOnly ids (pin_slabs x ∷ calls) h = absurd h.0
NoPins-PinsOnly ids (_ ∷ calls) h = (tt, NoPins-PinsOnly ids calls h.1)

pub PinsOnly-NotPinned :
    (ids : List SlabId) (id : SlabId) (calls : Calls)
    → contains ids id ≡ false
    → All (PinsOnly ids) calls
    → All (NotPinned id) calls
PinsOnly-NotPinned ids id [] e h = tt
PinsOnly-NotPinned ids id (pin_slabs x ∷ calls) e h =
    (subst (λ y. contains y id ≡ false) (sym h.0) e, PinsOnly-NotPinned ids id calls e h.1)
PinsOnly-NotPinned ids id (_ ∷ calls) e h = (tt, PinsOnly-NotPinned ids id calls e h.1)

-- All slices of one object lie on one slab, whose name is not empty.
abbrev pub IsOnOne : List SlabId → Type 0
IsOnOne [] = Unit
IsOnOne (s ∷ slices) = ((s == "") ≡ false) × All (λ t. t ≡ s) slices

-- What `slabOf` says of a packed upload: that an object sits in one slab.
pub record OneSlab (env : Env) : Type 0 where
  pub each :
      (calls : Calls) (payloads : List (List ℕ)) (objects : List (ObjectRef × List SlabId))
      → env.on_finalize calls payloads ≡ ok objects
      → All (λ o. IsOnOne o.1) objects

abbrev Placed : Placement → Type 0
Placed p = IsOnOne p.slices × (p.slab ≡ slab_of p.slices)

place-Placed :
    (objects : List (ObjectRef × List SlabId)) (payloads : List (List ℕ))
    → All (λ o. IsOnOne o.1) objects
    → All Placed (place objects payloads)
unfolding place
place-Placed [] payloads h = tt
place-Placed (o ∷ objects) [] h = tt
place-Placed ((ref, slices) ∷ objects) (payload ∷ payloads) (h, hs) =
    ((h, refl), place-Placed objects payloads hs)

include_twice : (s : SlabId) (seen : List SlabId) → include s (include s seen) ≡ include s seen
unfolding include
include_twice s seen = ground (arith, contains-include s s seen, ==_refl s)

include_slices-same :
    (s : SlabId) (slices seen : List SlabId)
    → All (λ t. t ≡ s) slices
    → include_slices slices (include s seen) ≡ include s seen
unfolding include_slices
include_slices-same s [] seen h = refl
include_slices-same s (t ∷ slices) seen (e, h) =
    ap (include_slices slices) (ap (λ t. include t (include s seen)) e ∙ include_twice s seen)
    ∙ include_slices-same s slices seen h

sliced_from-slabs_from :
    (batch : List Placement) (seen : List SlabId)
    → All Placed batch
    → sliced_from seen batch ≡ slabs_from seen batch
unfolding sliced_from slabs_from include_slices slab_of
sliced_from-slabs_from [] seen h = refl
sliced_from-slabs_from (p ∷ batch) seen ((one, its), h) =
    ap (λ s. sliced_from s batch) (one_more p.slices p.slab one its)
    ∙ sliced_from-slabs_from batch _ h
  where
    one_more :
        (slices : List SlabId) (slab : SlabId)
        → IsOnOne slices
        → slab ≡ slab_of slices
        → include_slices slices seen ≡ (if slab == "" then seen else include slab seen)
    one_more [] slab one its = ground (arith, its, eq_iff slab "")
    one_more (s ∷ slices) slab (named, same) its =
        include_slices-same s slices seen same ∙ ground (arith, its, named)

module _ {D : Type 0} (env : Env) (held : List Held) where
  abbrev pub Justified : World D → Type 0
  Justified w = IsJustified env held w.calls

  -- Nothing is pinned yet.
  abbrev pub Before : World D → Type 0
  Before w = All NoPins w.calls × IsJustified env held w.calls

  -- The slabs of the flush are pinned, and no others.
  abbrev pub Written : List SlabId → World D → Type 0
  Written ids w = All (PinsOnly ids) w.calls × IsJustified env held w.calls

  pub plain-Before :
      (c : Call) → IsPlain c → (w : World D) → Before w → Before (record w { calls = c ∷ w.calls })
  plain-Before (unpin_slab id) p w h = absurd p
  plain-Before (delete_objects refs) p w h = absurd p
  plain-Before (pin_slabs ids) p w h = absurd p
  plain-Before (callback refs) p w h = absurd p
  plain-Before _ p w h = ((tt, h.0), h.1)

  pub plain-Written :
      (ids : List SlabId) (c : Call)
      → IsPlain c
      → (w : World D) → Written ids w
      → Written ids (record w { calls = c ∷ w.calls })
  plain-Written ids (unpin_slab id) p w h = absurd p
  plain-Written ids (delete_objects refs) p w h = absurd p
  plain-Written ids (pin_slabs x) p w h = absurd p
  plain-Written ids (callback refs) p w h = absurd p
  plain-Written ids _ p w h = ((tt, h.0), h.1)

  pub Before-Justified : (w : World D) → Before w → Justified w
  Before-Justified w h = h.1

  upload-Placed :
      OneSlab env
      → (payloads : List (List ℕ))
      → Runs Before
          (upload_packed env payloads)
          (λ batch w. All Placed batch × Before w)
          (λ _ w. Justified w)
  unfolding upload_packed
  upload-Placed one [] = Runs-pure [] (λ w h. (tt, h))
  upload-Placed one (p ∷ payloads) =
      Runs-bind
        (Runs-ask (finalize_upload (p ∷ payloads)) _
          (λ w h objects made. (
            one.each w.calls (p ∷ payloads) objects made,
            plain-Before (finalize_upload (p ∷ payloads)) tt w h,
          ))
          (λ w h. h.1))
        λ objects. Runs-given (λ fits.
          Runs-if (nat_eq (length objects) (length (p ∷ payloads))) {n = fail wrong_count}
            (Runs-pure _ (λ w h. (place-Placed objects (p ∷ payloads) fits, h)))
            (record { at = λ w h. h.1 }))

  pin_sliced-Written :
      (ids : List SlabId)
      → Runs Before (pin_sliced env ids) (λ _ w. Written ids w) (λ _ w. Justified w)
  unfolding pin_sliced
  pin_sliced-Written [] = Runs-pure tt (λ w h. (NoPins-PinsOnly [] w.calls h.0, h.1))
  pin_sliced-Written (s ∷ rest) =
      Runs-error (λ w h. h.1)
        (Runs-act {P' = Written (s ∷ rest)} env (pin_slabs (s ∷ rest))
          (λ w h. ((refl, NoPins-PinsOnly (s ∷ rest) w.calls h.0), h.1)))

  pin-Written :
      (batch : List Placement)
      → All Placed batch
      → Runs Before (pin_batch env batch) (λ _ w. Written (slabs batch) w) (λ _ w. Justified w)
  unfolding pin_batch slabs
  pin-Written [] placed = record { at = λ w h. (NoPins-PinsOnly _ w.calls h.0, h.1) }
  pin-Written (p ∷ batch) placed =
      let refs = map (λ q. q.ref) (p ∷ batch) in
      subst
        (λ ids. Runs Before (pin_batch env (p ∷ batch)) (λ _ w. Written ids w) (λ _ w. Justified w))
        (sliced_from-slabs_from (p ∷ batch) [] placed)
        (Runs-bind (pin_sliced-Written (sliced_from [] (p ∷ batch))) λ _.
          Runs-error (λ w h. h.1)
            (Runs-act {P' = Written (sliced_from [] (p ∷ batch))} env (pin_objects refs)
              (plain-Written (sliced_from [] (p ∷ batch)) (pin_objects refs) tt)))

  pub put_batch-Written :
      OneSlab env
      → (blobs : List Blob)
      → Runs Before (put_batch env blobs) (λ flush w. Written flush.slabs w) (λ _ w. Justified w)
  unfolding put_batch
  put_batch-Written one [] = record { at = λ w h. (NoPins-PinsOnly [] w.calls h.0, h.1) }
  put_batch-Written one (blob ∷ blobs) =
      Runs-bind (upload-Placed one (map (λ b. b.payload) (blob ∷ blobs))) λ batch.
        Runs-given (λ placed. Runs-bind (pin-Written batch placed) λ _. Runs-pure _ (λ w h. h))
