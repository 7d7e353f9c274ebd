-- ===== src/Local/Sessions/Versions.antt =====
-- Writers that share a vault: what the version in a row says of the writes that made it.
use mnemosia.Prelude.{
  ℕ, suc, ◌+◌, ◌≡◌, sym, ap, subst, ◌∙◌, nat_eq, Bool, true, false, ◌&&◌, Bool-cases, List, [], ◌∷◌,
  none, some, inl, inr, length, All, arith, if◌then◌else◌,
}
use mnemosia.Local.Sessions.Rows.{row_at-snoc, row_at-update_row}
use mnemosia.Local.Sessions.{HeadRow, HeadRows, row_at, updated_row, put_row}

-- A head to write, and the version that its writer read.
pub record Write : Type 0 where
  pub row : HeadRow
  pub expect : ℕ

unfoldable pub write : Write → HeadRows → HeadRows
write w rows = elim (put_row w.row w.expect rows) [ none ↦ rows | some after ↦ after ]

unfoldable pub is_accepted : Write → HeadRows → Bool
is_accepted w rows = elim (put_row w.row w.expect rows) [ none ↦ false | some after ↦ true ]

-- The rows after so many writes, each by whichever writer comes next.
unfoldable pub written : List Write → HeadRows → HeadRows
written [] rows = rows
written (w ∷ ws) rows = written ws (write w rows)

-- The writes of one session that were not refused.
unfoldable pub accepted : ℕ → List Write → HeadRows → List Write
accepted id [] rows = []
accepted id (w ∷ ws) rows =
    let later = accepted id ws (write w rows) in
    if nat_eq w.row.session_id id && is_accepted w rows then w ∷ later else later

-- Each was made from the version that the one before it left.
pub Chain : ℕ → List Write → Type 0
Chain version [] = Unit
Chain version (w ∷ ws) = (w.expect ≡ version) × Chain w.row.version ws

-- A row with these writes upon it.
unfoldable pub revised : HeadRow → List Write → HeadRow
revised r [] = r
revised r (w ∷ ws) = revised (updated_row r w.row) ws

write_other :
    (w : Write) (rows : HeadRows) (id : ℕ)
    → nat_eq w.row.session_id id ≡ false
    → row_at id (write w rows) ≡ row_at id rows
unfolding write put_row
write_other w rows id h =
    ground (arith, h, row_at-snoc rows w.row id, row_at-update_row rows w.row id)

write_accepted :
    (w : Write) (rows : HeadRows) (r : HeadRow) (id : ℕ)
    → row_at id rows ≡ some r
    → nat_eq w.row.session_id id ≡ true
    → is_accepted w rows ≡ true
    → (w.expect ≡ r.version) × (row_at id (write w rows) ≡ some (updated_row r w.row))
unfolding write is_accepted put_row
write_accepted w rows r id h same took =
    let here : row_at w.row.session_id rows ≡ some r =
      ap (λ i. row_at i rows) (ground (arith, same)) ∙ h in
    (
      ground (arith, here, took),
      ground (arith, here, took, h, same, row_at-update_row rows w.row id),
    )

write_refused :
    (w : Write) (rows : HeadRows) (id : ℕ)
    → is_accepted w rows ≡ false
    → row_at id (write w rows) ≡ row_at id rows
unfolding write is_accepted put_row
write_refused w rows id h = ground (arith, h)

-- The rows after some writes of a session, told by those of them that were not refused.
abbrev pub Follows : ℕ → HeadRow → List Write → HeadRows → Type 0
Follows id r ws after =
    Chain r.version ws
    × (row_at id after ≡ some (revised r ws))
    × ((revised r ws).version ≡ r.version + length ws)

is_taken : ℕ → Write → HeadRows → Bool
is_taken id w rows = nat_eq w.row.session_id id && is_accepted w rows

-- A session is stored, and the writes that follow are of any number of writers, in any order and on
-- any sessions, each of which leaves its version one past the one that it read. Then those of the
-- session that are not refused were each made from the version that the one before left, the row is
-- the first with every one of them upon it, and its version has gone up by their number.
pub accepted-Chain :
    (id : ℕ) (ws : List Write) (rows : HeadRows) (r : HeadRow)
    → row_at id rows ≡ some r
    → All (λ w. w.row.version ≡ suc w.expect) ws
    → Follows id r (accepted id ws rows) (written ws rows)
unfolding Chain accepted written revised updated_row is_taken
accepted-Chain id [] rows r h all = (tt, h, omega arith)
accepted-Chain id (w ∷ ws) rows r h (one, all) = elim (Bool-cases (is_taken id w rows)) [
  | inl mine ↦
      let (from, now) =
        write_accepted w rows r id h (ground (arith, mine)) (ground (arith, mine)) in
      let (chain, at, version) =
        accepted-Chain id ws (write w rows) (updated_row r w.row) now all in
      let told : accepted id (w ∷ ws) rows ≡ w ∷ accepted id ws (write w rows) =
        ground (arith, mine) in
      subst (λ acc. Follows id r acc (written ws (write w rows))) (sym told)
        ((from, chain), at, omega (arith, version, one, from))
  | inr other ↦
      let same : row_at id (write w rows) ≡ row_at id rows =
        elim (Bool-cases (is_accepted w rows)) [
          | inl took ↦ write_other w rows id (ground (arith, took, other))
          | inr refused ↦ write_refused w rows id refused
        ] in
      let told : accepted id (w ∷ ws) rows ≡ accepted id ws (write w rows) =
        ground (arith, other) in
      subst (λ acc. Follows id r acc (written ws (write w rows))) (sym told)
        (accepted-Chain id ws (write w rows) r (same ∙ h) all)
]
