-- ===== src/Index/Live/Refines.antt =====
-- index/index.go: the matrix and its map of positions are a map from records to vectors.
use mnemosia.Prelude.{
  ℕ, suc, ◌*◌, ◌≡◌, ◌≢◌, refl, sym, ap, subst, ◌∙◌, inl, inr, Bool, true, false, ◌||◌, List, [],
  ◌∷◌, ◌++◌, Option, none, some, Bool-cases, Option-cases, String, string_keys, number_keys, ◌==◌,
  nat_eq, nat_eq_iff, length, length-append, map_get, map_put, map_get-map_put, if◌then◌else◌,
  arith,
}
use mnemosia.Prelude.Exec.{Result, ok, err}
use mnemosia.Index.Live.{
  Index, Refused, foreign_model, wrong_width, new_index, len, has, is_held, store, add, overlay,
}
use mnemosia.Index.Live.Rows.{position, rows, row_step, rows-overlay, length-overlay, rows-append}

module _ {F : Type 0} where
  -- The matrix has a row for each record, and the map knows the row of each.
  pub record IsAligned (i : Index F) : Type 0 where
    pub sized : length i.vectors ≡ length i.ids * i.dim
    pub placed : (id : ℕ) → map_get i.at id ≡ position id i.ids

  -- What the index stands for.
  abbrev pub table : Index F → List (ℕ × List F)
  table i = rows i.dim i.ids i.vectors

  -- The index with this vector for this record.
  pub record Stored (id : ℕ) (model : String) (vector : List F) (i : Index F)
      (r : Result Refused (Index F)) : Type 0 where
    pub same_model : model ≡ i.model
    pub same_width : length vector ≡ i.dim
    pub after : Index F
    pub stored : r ≡ ok after
    pub aligned : IsAligned after
    pub replaced : table after ≡ map_put (table i) id vector
    pub held : (j : ℕ) → has j after ≡ (nat_eq id j || has j i)
    pub counted : len after ≡ (if has id i then len i else suc (len i))

  pub data Outcome (id : ℕ) (model : String) (vector : List F) (i : Index F)
      (r : Result Refused (Index F)) : Type 0 where
    stored : Stored id model vector i r → Outcome id model vector i r
    foreign : model ≢ i.model → r ≡ err foreign_model → Outcome id model vector i r
    wrong : length vector ≢ i.dim → r ≡ err wrong_width → Outcome id model vector i r

position-snoc :
    (id : ℕ) (ids : List ℕ) (j : ℕ)
    → position j (ids ++ id ∷ []) ≡ elim (position j ids) [
      | none ↦ if nat_eq id j then some (length ids) else none
      | some n ↦ some n
    ]
unfolding position
position-snoc id [] j = ground arith
position-snoc id (x ∷ ids) j = ground (arith, position-snoc id ids j)

position-added :
    (id : ℕ) (ids : List ℕ) (j : ℕ)
    → position id ids ≡ none
    → (if nat_eq id j then some (length ids) else position j ids) ≡ position j (ids ++ id ∷ [])
position-added id ids j h = ground (arith, h, position-snoc id ids j)

length-snoc : (id : ℕ) (ids : List ℕ) → length (ids ++ id ∷ []) ≡ suc (length ids)
length-snoc id ids = omega (arith, length-append ids (id ∷ []))

held_there :
    (at : List (ℕ × ℕ)) (id p j : ℕ)
    → map_get at id ≡ some p
    → is_held (map_get at j) ≡ (nat_eq id j || is_held (map_get at j))
unfolding is_held
held_there at id p j h = elim (Bool-cases (nat_eq id j)) [
  | inl same ↦
      let held : is_held (map_get at j) ≡ true =
        ap is_held (ap (map_get at) (sym ((nat_eq_iff id j).0 same)) ∙ h) in
      held ∙ ap (λ b. b || is_held (map_get at j)) (sym same)
  | inr other ↦ ground (arith, other)
]

held_new : (b : Bool) (n : ℕ) (o : Option ℕ) → is_held (if b then some n else o) ≡ (b || is_held o)
unfolding is_held
held_new true n o = refl
held_new false n o = refl

module _ {F : Type 0} where
  add_chosen :
      (id : ℕ) (model : String) (v : List F) (i : Index F)
      → (model == i.model) ≡ true
      → length v ≡ i.dim
      → add id model v i ≡ ok (store (map_get i.at id) id v i)
  unfolding add
  add_chosen id model v i m w = ground (arith, m, w)

  add_foreign :
      (id : ℕ) (model : String) (v : List F) (i : Index F)
      → (model == i.model) ≡ false
      → add id model v i ≡ err foreign_model
  unfolding add
  add_foreign id model v i m = ground (arith, m)

  add_wrong :
      (id : ℕ) (model : String) (v : List F) (i : Index F)
      → (model == i.model) ≡ true
      → nat_eq (length v) i.dim ≡ false
      → add id model v i ≡ err wrong_width
  unfolding add
  add_wrong id model v i m w = ground (arith, m, w)

  size_by :
      (v : List F) (i : Index F)
      → IsAligned i
      → length v ≡ i.dim
      → length i.vectors ≡ length i.ids * length v
  size_by v i h w = h.sized ∙ ap (λ d. length i.ids * d) (sym w)

  appended_size :
      (id : ℕ) (v : List F) (i : Index F)
      → IsAligned i
      → length v ≡ i.dim
      → length (i.vectors ++ v) ≡ length (i.ids ++ id ∷ []) * i.dim
  appended_size id v i h w =
      length-append i.vectors v
      ∙ omega (arith, h.sized, w, row_step (length i.ids) i.dim)
      ∙ ap (λ n. n * i.dim) (sym (length-snoc id i.ids))

  written_over :
      (id : ℕ) (model : String) (v : List F) (i : Index F) (p : ℕ)
      → IsAligned i
      → (model == i.model) ≡ true
      → length v ≡ i.dim
      → map_get i.at id ≡ some p
      → Stored id model v i (add id model v i)
  unfolding store has len is_held
  written_over id model v i p h m w found =
      let at_row = sym (h.placed id) ∙ found in
      let size = size_by v i h w in
      record {
        same_model = (string_keys.same_key_iff model i.model).0 m;
        same_width = w;
        after = record i { vectors = overlay (p * i.dim) (suc p * i.dim) v i.vectors };
        stored = add_chosen id model v i m w ∙ ap (λ o. ok (store o id v i)) found;
        aligned = record {
          sized =
              subst (λ d. length (overlay (p * d) (suc p * d) v i.vectors) ≡ length i.vectors) w
                (length-overlay id i.ids v i.vectors p at_row size)
              ∙ h.sized;
          placed = h.placed;
        };
        replaced =
            subst
              (λ d.
                rows d i.ids (overlay (p * d) (suc p * d) v i.vectors)
                ≡ map_put (rows d i.ids i.vectors) id v)
              w (rows-overlay id i.ids v i.vectors p at_row size);
        held = λ j. held_there i.at id p j found;
        counted = ap (λ o. if is_held o then length i.ids else suc (length i.ids)) (sym found);
      }

  written_new :
      (id : ℕ) (model : String) (v : List F) (i : Index F)
      → IsAligned i
      → (model == i.model) ≡ true
      → length v ≡ i.dim
      → map_get i.at id ≡ none
      → Stored id model v i (add id model v i)
  unfolding store has len is_held
  written_new id model v i h m w absent =
      let no_row = sym (h.placed id) ∙ absent in
      record {
        same_model = (string_keys.same_key_iff model i.model).0 m;
        same_width = w;
        after = record i {
          at = map_put i.at id (length i.ids);
          ids = i.ids ++ id ∷ [];
          vectors = i.vectors ++ v;
        };
        stored = add_chosen id model v i m w ∙ ap (λ o. ok (store o id v i)) absent;
        aligned = record {
          sized = appended_size id v i h w;
          placed = λ j.
              map_get-map_put i.at id (length i.ids) j
              ∙ ap (λ o. if nat_eq id j then some (length i.ids) else o) (h.placed j)
              ∙ position-added id i.ids j no_row;
        };
        replaced =
            subst
              (λ d.
                rows d (i.ids ++ id ∷ []) (i.vectors ++ v) ≡ map_put (rows d i.ids i.vectors) id v)
              w (rows-append id i.ids v i.vectors no_row (size_by v i h w));
        held = λ j.
            ap is_held (map_get-map_put i.at id (length i.ids) j)
            ∙ held_new (nat_eq id j) (length i.ids) (map_get i.at j);
        counted =
            length-snoc id i.ids
            ∙ ap (λ o. if is_held o then length i.ids else suc (length i.ids)) (sym absent);
      }

  -- For an index whose matrix has one row of `dim` values for each id, and whose map gives each id
  -- the place of its first row, `Add` does one of three things. A vector of the index's model and
  -- width is stored: the rows under their ids are as before but that the record's row is this
  -- vector, in its old place or at the end, the matrix and the map agree again, `Has` answers as
  -- before but for this record, and `Len` grows by one if the record was new. A vector of another
  -- model is refused as foreign, and one of another width as that.
  pub add-Refines :
      (i : Index F) (id : ℕ) (model : String) (v : List F)
      → IsAligned i
      → Outcome id model v i (add id model v i)
  add-Refines i id model v h = elim (Bool-cases (model == i.model)) [
    | inl m ↦ elim (Bool-cases (nat_eq (length v) i.dim)) [
      | inl w ↦ elim (Option-cases (map_get i.at id)) [
        | inl absent ↦
            stored (written_new id model v i h m ((nat_eq_iff (length v) i.dim).0 w) absent)
        | inr (p, found) ↦
            stored (written_over id model v i p h m ((nat_eq_iff (length v) i.dim).0 w) found)
      ]
      | inr w ↦ wrong (ground (arith, w)) (add_wrong id model v i m w)
    ]
    | inr m ↦
        foreign (λ e. ground (arith, m, (string_keys.same_key_iff model i.model).1 e))
          (add_foreign id model v i m)
  ]

  pub new_index-IsAligned : (model : String) (dim : ℕ) → IsAligned (new_index {F = F} model dim)
  unfolding new_index position map_get
  new_index-IsAligned model dim = record { sized = omega arith; placed = λ id. refl }
