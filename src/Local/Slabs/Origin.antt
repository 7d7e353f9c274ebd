-- ===== src/Local/Slabs/Origin.antt =====
-- Which rows of the ledger this device may release, over any history of statements.
use text.Mathlib.TextEquality.{eq_iff}
use mnemosia.Prelude.{
  ℕ, ◌+◌, ◌≡◌, refl, Bool, true, false, not, ◌&&◌, ◌||◌, List, [], ◌∷◌, arith, All, ◌∙◌, any_of,
  string_keys, ◌==◌, if◌then◌else◌,
}
use mnemosia.Sia.Names.{SlabId}
use mnemosia.Local.Slabs.{
  SlabOrigin, slab_pinned, slab_hydrated, releasable_origin, TrackedSlab, Ledger, track_as,
  track_slab, adopt_slab, take_slab_ownership, forget_slab,
}

-- Some row names the slab and is this device's to release.
abbrev pub may_release : SlabId → Ledger → Bool
may_release id ledger = any_of (λ row. releasable_origin row.origin && (row.slab_id == id)) ledger

abbrev pub is_listed : SlabId → Ledger → Bool
is_listed id ledger = any_of (λ row. row.slab_id == id) ledger

-- A statement on the ledger.
pub data Statement : Type 0 where
  tracks adopts : SlabId → ℕ → ℕ → ℕ → Statement
  takes : Statement
  forgets : SlabId → Statement

unfoldable pub execute : Statement → Ledger → Ledger
unfolding track_slab adopt_slab take_slab_ownership forget_slab
execute (tracks id now records bytes) l = track_slab id now records bytes l
execute (adopts id now records bytes) l = adopt_slab id now records bytes l
execute takes l = (take_slab_ownership l).0
execute (forgets id) l = forget_slab id l

unfoldable pub execute_all : List Statement → Ledger → Ledger
execute_all [] l = l
execute_all (s ∷ rest) l = execute_all rest (execute s l)

may_release-track_as :
    (id j : SlabId) (now records bytes : ℕ) (origin : SlabOrigin) (l : Ledger)
    → may_release j (track_as id now records bytes origin l)
      ≡ (may_release j l || ((id == j) && releasable_origin origin))
unfolding track_as releasable_origin
may_release-track_as id j now records bytes origin [] = ground (arith, eq_iff id j)
may_release-track_as id j now records bytes origin (row ∷ rows) = ground (
  arith,
  may_release-track_as id j now records bytes origin rows,
  eq_iff id j,
  eq_iff row.slab_id id,
  eq_iff row.slab_id j,
)

may_release-take :
    (j : SlabId) (l : Ledger) → may_release j (take_slab_ownership l).0 ≡ is_listed j l
unfolding take_slab_ownership releasable_origin
may_release-take j [] = refl
may_release-take j (row ∷ rows) = ground (arith, may_release-take j rows)

may_release-forget :
    (id j : SlabId) (l : Ledger)
    → may_release j (forget_slab id l) ≡ (may_release j l && not (id == j))
unfolding forget_slab
may_release-forget id j [] = refl
may_release-forget id j (row ∷ rows) =
    ground (
      arith,
      may_release-forget id j rows,
      eq_iff id j,
      eq_iff row.slab_id id,
      eq_iff row.slab_id j,
    )

-- The right to release a slab after a statement, by what it was before.
abbrev pub right_after : Statement → SlabId → Ledger → Bool
right_after (tracks id now records bytes) j l = may_release j l || (id == j)
right_after (adopts id now records bytes) j l = may_release j l
right_after takes j l = is_listed j l
right_after (forgets id) j l = may_release j l && not (id == j)

-- Tracking a slab gives the right to release it, adopting one gives no right and takes none away,
-- taking ownership gives the right to every slab in the ledger, and forgetting a slab ends it.
pub may_release-execute :
    (s : Statement) (j : SlabId) (l : Ledger) → may_release j (execute s l) ≡ right_after s j l
unfolding execute releasable_origin
may_release-execute (tracks id now records bytes) j l =
    ground (arith, may_release-track_as id j now records bytes slab_pinned l)
may_release-execute (adopts id now records bytes) j l =
    ground (arith, may_release-track_as id j now records bytes slab_hydrated l)
may_release-execute takes j l = may_release-take j l
may_release-execute (forgets id) j l = may_release-forget id j l

-- A statement other than one that forgets the slab.
abbrev pub IsNotForgetting : SlabId → Statement → Type 0
IsNotForgetting j (forgets id) = (id == j) ≡ false
IsNotForgetting j _ = Unit

is_listed_of_right : (j : SlabId) (l : Ledger) → may_release j l ≡ true → is_listed j l ≡ true
is_listed_of_right j [] h = h
is_listed_of_right j (row ∷ rows) h = ground (arith, is_listed_of_right j rows)

-- A slab that this device may release it may release after any statements that do not forget it:
-- in particular no later adoption of the slab takes the right away.
pub right_is_kept :
    (statements : List Statement) (j : SlabId) (l : Ledger)
    → All (IsNotForgetting j) statements
    → may_release j l ≡ true
    → may_release j (execute_all statements l) ≡ true
unfolding execute_all
right_is_kept [] j l h r = r
right_is_kept (s ∷ rest) j l h r =
    right_is_kept rest j (execute s l) h.1 (may_release-execute s j l ∙ kept s h.0)
  where
    kept : (s : Statement) → IsNotForgetting j s → right_after s j l ≡ true
    kept (tracks id now records bytes) k = ground arith
    kept (adopts id now records bytes) k = r
    kept takes k = is_listed_of_right j l r
    kept (forgets id) k = ground arith

-- The counters of a slab's row, and 0 where it has none.
abbrev pub counted : (TrackedSlab → ℕ) → SlabId → Ledger → ℕ
counted field id [] = 0
counted field id (row ∷ rows) = if row.slab_id == id then field row else counted field id rows

-- A slab that is tracked or adopted again has its records and bytes added up, and no other slab's
-- counters change.
pub counted-track_as :
    (id j : SlabId) (now records bytes : ℕ) (origin : SlabOrigin) (l : Ledger)
    → (counted (λ row. row.records) j (track_as id now records bytes origin l)
        ≡ counted (λ row. row.records) j l + (if id == j then records else 0))
      × (counted (λ row. row.bytes) j (track_as id now records bytes origin l)
          ≡ counted (λ row. row.bytes) j l + (if id == j then bytes else 0))
unfolding track_as
counted-track_as id j now records bytes origin [] = ground (arith, eq_iff id j)
counted-track_as id j now records bytes origin (row ∷ rows) = ground (
  arith,
  counted-track_as id j now records bytes origin rows,
  eq_iff id j,
  eq_iff row.slab_id id,
  eq_iff row.slab_id j,
)
