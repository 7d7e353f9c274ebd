-- ===== src/Index/Live/Rows.antt =====
-- The rows of the matrix, under the ids of their records.
use mnemosia.Prelude.{
  ℕ, suc, zero, ◌+◌, ◌*◌, ◌≤◌, ◌<◌, ◌≡◌, ◌⊎◌, refl, sym, ap, ◌∙◌, true, false, Bool-cases,
  Option-cases, inl, inr, List, [], ◌∷◌, ◌++◌, Option, none, some, number_keys, nat_eq, length,
  take, drop, take-append, drop-append, length-take, length-drop, length-append, map_put,
  if◌then◌else◌, arith,
}
use native.Mathlib.Numerals.{unary_clauses}
use mnemosia.Index.Live.{overlay}

-- Where a record has its first row.
unfoldable pub position : ℕ → List ℕ → Option ℕ
position id [] = none
position id (x ∷ ids) =
    let rest = position id ids in
    if nat_eq x id then some 0 else elim rest [ none ↦ none | some n ↦ some (suc n) ]

pub row_step : (n d : ℕ) → suc n * d ≡ n * d + d
row_step n d = omega arith

position-cases :
    (id x : ℕ) (ids : List ℕ) (p : ℕ)
    → position id (x ∷ ids) ≡ some p
    → ((nat_eq x id ≡ true) × (p ≡ 0))
      ⊎ ((nat_eq x id ≡ false) × (q : ℕ) × (p ≡ suc q) × (position id ids ≡ some q))
unfolding position
position-cases id x ids p h = split (Bool-cases (nat_eq x id)) (Option-cases (position id ids))
  where
    split :
        (nat_eq x id ≡ true) ⊎ (nat_eq x id ≡ false)
        → (position id ids ≡ none) ⊎ ((n : ℕ) × (position id ids ≡ some n))
        → ((nat_eq x id ≡ true) × (p ≡ 0))
          ⊎ ((nat_eq x id ≡ false) × (q : ℕ) × (p ≡ suc q) × (position id ids ≡ some q))
    split (inl same) o = inl (same, ground (arith, same, h))
    split (inr other) (inl absent) = ground (arith, other, absent, h)
    split (inr other) (inr (n, found)) = inr (other, n, ground (arith, other, found, h), found)

position-none :
    (id x : ℕ) (ids : List ℕ)
    → position id (x ∷ ids) ≡ none
    → (nat_eq x id ≡ false) × (position id ids ≡ none)
unfolding position
position-none id x ids h = ground (arith, h)

position-below : (id : ℕ) (ids : List ℕ) (p : ℕ) → position id ids ≡ some p → p < length ids
unfolding position
position-below id [] p h = ground (arith, h)
position-below id (x ∷ ids) p h = elim (position-cases id x ids p h) [
  | inl (same, first) ↦ omega (arith, first)
  | inr (other, q, later, found) ↦ omega (arith, later, position-below id ids q found)
]

pub rows_below : (p n d : ℕ) → p < n → suc p * d ≤ n * d
rows_below p n d h = grind (arith, h)

module _ {F : Type 0} where
  unfoldable pub rows : ℕ → List ℕ → List F → List (ℕ × List F)
  rows dim [] vs = []
  rows dim (id ∷ ids) vs = (id, take dim vs) ∷ rows dim ids (drop dim vs)

  take_whole : (vs : List F) → take (length vs) vs ≡ vs
  take_whole [] = refl
  take_whole (v ∷ vs) = ap (◌∷◌ v) (take_whole vs)

  take_within : (n : ℕ) (vs ws : List F) → n ≤ length vs → take n (vs ++ ws) ≡ take n vs
  take_within zero vs ws h = refl
  take_within (suc n) [] ws h = ground arith
  take_within (suc n) (v ∷ vs) ws h = ap (◌∷◌ v) (take_within n vs ws (omega (arith, h)))

  drop_within : (n : ℕ) (vs ws : List F) → n ≤ length vs → drop n (vs ++ ws) ≡ drop n vs ++ ws
  drop_within zero vs ws h = refl
  drop_within (suc n) [] ws h = ground arith
  drop_within (suc n) (v ∷ vs) ws h = drop_within n vs ws (omega (arith, h))

  take_front :
      (n m : ℕ) (vs ws : List F) → n ≤ length vs → take n (take (m + n) vs ++ ws) ≡ take n vs
  take_front zero m vs ws h = refl
  take_front (suc n) m [] ws h = ground arith
  take_front (suc n) m (v ∷ vs) ws h =
      simp unary_clauses (ap (◌∷◌ v) (take_front n m vs ws (omega (arith, h))))

  drop_front :
      (n m : ℕ) (vs ws : List F)
      → n ≤ length vs
      → drop n (take (m + n) vs ++ ws) ≡ take m (drop n vs) ++ ws
  drop_front zero m vs ws h = simp unary_clauses refl
  drop_front (suc n) m [] ws h = ground arith
  drop_front (suc n) m (v ∷ vs) ws h = simp unary_clauses (drop_front n m vs ws (omega (arith, h)))

  pub drop_twice : (n m : ℕ) (vs : List F) → n ≤ length vs → drop (m + n) vs ≡ drop m (drop n vs)
  drop_twice zero m vs h = simp unary_clauses refl
  drop_twice (suc n) m [] h = ground arith
  drop_twice (suc n) m (v ∷ vs) h = simp unary_clauses (drop_twice n m vs (omega (arith, h)))

  -- Writing past the first row leaves that row, and writes that much earlier in the rest.
  take-overlay :
      (n from to : ℕ) (v vs : List F)
      → n ≤ length vs
      → take n (overlay (from + n) (to + n) v vs) ≡ take n vs
  take-overlay n from to v vs h = take_front n from vs (v ++ drop (to + n) vs) h

  drop-overlay :
      (n from to : ℕ) (v vs : List F)
      → n ≤ length vs
      → drop n (overlay (from + n) (to + n) v vs) ≡ overlay from to v (drop n vs)
  drop-overlay n from to v vs h =
      drop_front n from vs (v ++ drop (to + n) vs) h
      ∙ ap (λ rest. take from (drop n vs) ++ (v ++ rest)) (drop_twice n to vs h)

  first_fits : (d n : ℕ) (vs : List F) → length vs ≡ suc n * d → d ≤ length vs
  first_fits d n vs h = omega (arith, h, row_step n d)

  rest_fits : (d n : ℕ) (vs : List F) → length vs ≡ suc n * d → length (drop d vs) ≡ n * d
  rest_fits d n vs h = omega (arith, h, row_step n d, length-drop d vs)

  -- The matrix, cut after its first row.
  first_row :
      (x : ℕ) (ids : List ℕ) (d : ℕ) (vs w rest : List F)
      → take d vs ≡ w
      → drop d vs ≡ rest
      → rows d (x ∷ ids) vs ≡ (x, w) ∷ rows d ids rest
  unfolding rows
  first_row x ids d vs w rest h k = cc (h, k)

  put_here :
      (x : ℕ) (w : List F) (rest : List (ℕ × List F)) (id : ℕ) (v : List F)
      → nat_eq x id ≡ true
      → map_put ((x, w) ∷ rest) id v ≡ (x, v) ∷ rest
  unfolding map_put
  put_here x w rest id v h = ground (arith, h)

  put_there :
      (x : ℕ) (w : List F) (rest : List (ℕ × List F)) (id : ℕ) (v : List F)
      → nat_eq x id ≡ false
      → map_put ((x, w) ∷ rest) id v ≡ (x, w) ∷ map_put rest id v
  unfolding map_put
  put_there x w rest id v h = ground (arith, h)

  overlay_first :
      (p : ℕ) (v vs : List F)
      → p ≡ 0
      → overlay (p * length v) (suc p * length v) v vs ≡ v ++ drop (length v) vs
  overlay_first p v vs h =
      moved (p * length v) (suc p * length v) (ap (λ n. n * length v) h ∙ omega arith)
        (ap (λ n. suc n * length v) h ∙ omega arith)
    where
      moved :
          (from to : ℕ) → from ≡ 0 → to ≡ length v → overlay from to v vs ≡ v ++ drop (length v) vs
      moved from to k l = cc (k, l)

  overlay_later :
      (q p : ℕ) (v vs : List F)
      → p ≡ suc q
      → overlay (p * length v) (suc p * length v) v vs
        ≡ overlay (q * length v + length v) (suc q * length v + length v) v vs
  overlay_later q p v vs h = cc (h, row_step q (length v), row_step (suc q) (length v))

  -- A row that is written over is the record's new vector.
  pub rows-overlay :
      (id : ℕ) (ids : List ℕ) (v vs : List F) (p : ℕ)
      → position id ids ≡ some p
      → length vs ≡ length ids * length v
      → rows (length v) ids (overlay (p * length v) (suc p * length v) v vs)
        ≡ map_put (rows (length v) ids vs) id v
  unfolding rows position
  rows-overlay id [] v vs p h size = ground (arith, h)
  rows-overlay id (x ∷ ids) v vs p h size = elim (position-cases id x ids p h) [
    | inl (same, first) ↦
        first_row x ids (length v) (overlay (p * length v) (suc p * length v) v vs) v
          (drop (length v) vs)
          (ap (take (length v)) (overlay_first p v vs first) ∙ take-append v (drop (length v) vs))
          (ap (drop (length v)) (overlay_first p v vs first) ∙ drop-append v (drop (length v) vs))
        ∙ sym (put_here x (take (length v) vs) (rows (length v) ids (drop (length v) vs)) id v same)
    | inr (other, q, later, found) ↦
        let d = length v in
        let fits = first_fits d (length ids) vs size in
        first_row x ids d (overlay (p * d) (suc p * d) v vs) (take d vs)
          (overlay (q * d) (suc q * d) v (drop d vs))
          (ap (take d) (overlay_later q p v vs later)
            ∙ take-overlay d (q * d) (suc q * d) v vs fits)
          (ap (drop d) (overlay_later q p v vs later)
            ∙ drop-overlay d (q * d) (suc q * d) v vs fits)
        ∙ ap (◌∷◌ (x, take d vs))
            (rows-overlay id ids v (drop d vs) q found (rest_fits d (length ids) vs size))
        ∙ sym (put_there x (take d vs) (rows d ids (drop d vs)) id v other)
  ]

  -- A row that is added at the end is that of a record that had none.
  pub rows-append :
      (id : ℕ) (ids : List ℕ) (v vs : List F)
      → position id ids ≡ none
      → length vs ≡ length ids * length v
      → rows (length v) (ids ++ id ∷ []) (vs ++ v) ≡ map_put (rows (length v) ids vs) id v
  unfolding rows position map_put
  rows-append id [] v [] h size = ap (λ w. (id, w) ∷ []) (take_whole v)
  rows-append id [] v (w ∷ vs) h size = ground (arith, size)
  rows-append id (x ∷ ids) v vs h size =
      first_row x (ids ++ id ∷ []) (length v) (vs ++ v) (take (length v) vs)
        (drop (length v) vs ++ v)
        (take_within (length v) vs v (first_fits (length v) (length ids) vs size))
        (drop_within (length v) vs v (first_fits (length v) (length ids) vs size))
      ∙ ap (◌∷◌ (x, take (length v) vs)) (
          rows-append id ids v (drop (length v) vs) (position-none id x ids h).1
            (rest_fits (length v) (length ids) vs size))
      ∙ sym (
          put_there x (take (length v) vs) (rows (length v) ids (drop (length v) vs)) id v
            (position-none id x ids h).0)

  -- Writing over a row leaves the size of the matrix.
  pub length-overlay :
      (id : ℕ) (ids : List ℕ) (v vs : List F) (p : ℕ)
      → position id ids ≡ some p
      → length vs ≡ length ids * length v
      → length (overlay (p * length v) (suc p * length v) v vs) ≡ length vs
  length-overlay id ids v vs p h size = omega (
    arith,
    size,
    row_step p (length v),
    rows_below p (length ids) (length v) (position-below id ids p h),
    length-take (p * length v) vs (
        omega (
          arith,
          size,
          row_step p (length v),
          rows_below p (length ids) (length v) (position-below id ids p h),
        )),
    length-drop (suc p * length v) vs,
    length-append (take (p * length v) vs) (v ++ drop (suc p * length v) vs),
    length-append v (drop (suc p * length v) vs),
  )
