-- ===== src/Local/Sessions/Rows.antt =====
-- What the statements do to the row of a session.
use mnemosia.Prelude.{
  ℕ, ◌≡◌, refl, nat_eq, false, [], ◌∷◌, ◌++◌, Option, none, some, arith, if◌then◌else◌,
}
use mnemosia.Local.Sessions.{
  HeadRow, HeadRows, row_at, updated_row, update_row, put_row, forget_session_head,
}

pub row_at-snoc :
    (rows : HeadRows) (new : HeadRow) (id : ℕ)
    → row_at id (rows ++ new ∷ []) ≡ elim (row_at id rows) [
      | none ↦ if nat_eq new.session_id id then some new else none
      | some r ↦ some r
    ]
unfolding row_at
row_at-snoc [] new id = refl
row_at-snoc (r ∷ rest) new id = ground (arith, row_at-snoc rest new id)

pub row_at-update_row :
    (rows : HeadRows) (new : HeadRow) (id : ℕ)
    → row_at id (update_row new rows) ≡ elim (row_at id rows) [
      | none ↦ none
      | some r ↦ if nat_eq new.session_id id then some (updated_row r new) else some r
    ]
unfolding row_at update_row updated_row
row_at-update_row [] new id = refl
row_at-update_row (r ∷ rest) new id = ground (arith, row_at-update_row rest new id)

-- A row that was written stands under its key, but for its time of creation.
pub record Stands (id : ℕ) (new : HeadRow) (rows : HeadRows) : Type 0 where
  pub row : HeadRow
  pub found : row_at id rows ≡ some row
  pub head : row.head ≡ new.head
  pub version : row.version ≡ new.version

put_row-arms :
    (old : Option HeadRow) (new : HeadRow) (expect : ℕ) (rows after : HeadRows)
    → row_at new.session_id rows ≡ old
    → put_row new expect rows ≡ some after
    → Stands new.session_id new after
unfolding put_row updated_row
put_row-arms none new expect rows after e h = record {
  row = new;
  found = ground (arith, e, h, row_at-snoc rows new new.session_id);
  head = refl;
  version = refl;
}
put_row-arms (some r) new expect rows after e h = record {
  row = updated_row r new;
  found = ground (arith, e, h, row_at-update_row rows new new.session_id);
  head = refl;
  version = refl;
}

pub put_row-Stands :
    (new : HeadRow) (expect : ℕ) (rows after : HeadRows)
    → put_row new expect rows ≡ some after
    → Stands new.session_id new after
put_row-Stands new expect rows after h =
    put_row-arms (row_at new.session_id rows) new expect rows after refl h

pub put_row-absent :
    (new : HeadRow) (expect : ℕ) (rows : HeadRows)
    → row_at new.session_id rows ≡ none
    → put_row new expect rows ≡ some (rows ++ new ∷ [])
unfolding put_row
put_row-absent new expect rows h = ground (arith, h)

pub put_row-other :
    (new : HeadRow) (expect : ℕ) (rows after : HeadRows) (id : ℕ)
    → put_row new expect rows ≡ some after
    → nat_eq new.session_id id ≡ false
    → row_at id after ≡ row_at id rows
unfolding put_row
put_row-other new expect rows after id h k =
    ground (arith, h, k, row_at-snoc rows new id, row_at-update_row rows new id)

pub row_at-forget_session_head :
    (id j : ℕ) (rows : HeadRows)
    → row_at j (forget_session_head id rows) ≡ (if nat_eq id j then none else row_at j rows)
unfolding row_at forget_session_head
row_at-forget_session_head id j [] = ground arith
row_at-forget_session_head id j (r ∷ rest) = ground (arith, row_at-forget_session_head id j rest)
