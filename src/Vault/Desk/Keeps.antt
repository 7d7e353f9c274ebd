-- ===== src/Vault/Desk/Keeps.antt =====
-- What the calls of the vault keep of the table of heads.
use mnemosia.Prelude.{ℕ, ◌≡◌, refl, List, ◌∷◌, Option, none, some}
use mnemosia.Prelude.Exec.{
  Result, ok, err, Exec, Post, Runs, Keeps, Runs-bind, Keeps-Runs, pure, ◌>>=◌,
}
use mnemosia.Service
use mnemosia.Service.{
  World, Env, Calls, VaultCall, of_vault, Call, select_head, upsert_head, statement, act, ask,
}
use mnemosia.Service.Keeps.{Keeps-statement, Keeps-act, Keeps-ask}
use mnemosia.Record.Invalid.{Invalid}
use mnemosia.Record.Kind.{Kind}
use mnemosia.Record.Session.{Session}
use mnemosia.Local.Sessions.{HeadRow, HeadRows, row_at, put_session_head, get_session_head}
use mnemosia.Packer
use mnemosia.Vault.Desk.{
  Desk, Error, unreadable, no_session, Vault, raised, raise, put_back, on_packer, some_or,
  check_valid, call, call_table, store_body, set_heads, put_head, read_bytes, read_session, session,
}

pub record OnHeads (P : HeadRows → Type 0) (w : World Desk) : Type 0 where
  pub holds : P w.device.heads

module _ {A : Type 0} where
  raised-state :
      (P : World Desk → Type 0) (r : Result Service.Error A × World Desk) → P r.1 → P (raised r).1
  unfolding raised
  raised-state P (ok a, w) h = h
  raised-state P (err e, w) h = h

  put_back-state :
      (P : HeadRows → Type 0) (w : World Desk) (r : Result Service.Error A × World Packer.Device)
      → OnHeads P w
      → OnHeads P (put_back w r).1
  unfolding put_back
  put_back-state P w (ok a, p) h = record { holds = h.holds }
  put_back-state P w (err e, p) h = record { holds = h.holds }

  some_or-Post :
      (P : World Desk → Type 0) (e : Error) (o : Option A) (w : World Desk)
      → P w
      → Post (λ a w. (o ≡ some a) × P w) (λ _ w. P w) (some_or e o w)
  unfolding some_or
  some_or-Post P e none w h = h
  some_or-Post P e (some a) w h = (refl, h)

module _ {A : Type 0} {P : World Desk → Type 0} where
  pub Keeps-raise : (m : Exec (World Desk) Service.Error A) → Keeps P m → Keeps P (raise m)
  unfolding raise
  Keeps-raise m k = record { at = λ w h. raised-state P (m w) (k.at w h) }

  pub Runs-some_or :
      (e : Error) (o : Option A) → Runs P (some_or e o) (λ a w. (o ≡ some a) × P w) (λ _ w. P w)
  Runs-some_or e o = record { at = some_or-Post P e o }

check_valid-Post :
    (P : World Desk → Type 0) (o : Option Invalid) (w : World Desk)
    → P w
    → Post (λ _ w. (o ≡ none) × P w) (λ _ w. P w) (check_valid o w)
unfolding check_valid
check_valid-Post P none w h = (refl, h)
check_valid-Post P (some e) w h = h

module _ {P : World Desk → Type 0} where
  pub Runs-check_valid :
      (o : Option Invalid) → Runs P (check_valid o) (λ _ w. (o ≡ none) × P w) (λ _ w. P w)
  Runs-check_valid o = record { at = check_valid-Post P o }

module _ {P : HeadRows → Type 0} where
  pub Keeps-on_packer :
      {A : Type 0} (m : Exec (World Packer.Device) Service.Error A)
      → Keeps (OnHeads P) (on_packer m)
  unfolding on_packer
  Keeps-on_packer m = record {
    at = λ w h. put_back-state P w (m (record { device = w.device.packer; calls = w.calls })) h;
  }

  same_heads :
      (c : Call) (w : World Desk) → OnHeads P w → OnHeads P (record w { calls = c ∷ w.calls })
  same_heads c w h = record { holds = h.holds }

  pub Keeps-asked :
      {A : Type 0} (c : Call) (answer : Calls → Result Service.Error A)
      → Keeps (OnHeads P) (raise (ask c answer))
  Keeps-asked c answer = Keeps-raise (ask c answer) (Keeps-ask c answer (same_heads c))

  pub Keeps-call_table :
      (v : Vault) (c : VaultCall) (f : Desk → Desk)
      → ((d : Desk) → P d.heads → P (f d).heads)
      → Keeps (OnHeads P) (call_table v c f)
  unfolding call_table
  Keeps-call_table v c f k = Keeps-raise (statement v.env (of_vault c) f) (
      Keeps-statement v.env (of_vault c) f (same_heads (of_vault c))
        (λ w h. record { holds = k w.device h.holds }))

  pub Keeps-call : (v : Vault) (c : VaultCall) → Keeps (OnHeads P) (call v c)
  unfolding call
  Keeps-call v c =
      Keeps-raise (act v.env (of_vault c)) (Keeps-act v.env (of_vault c) (same_heads (of_vault c)))

  pub Keeps-store_body :
      (v : Vault) (id : ℕ) (kind : Kind) (body : List ℕ)
      → Keeps (OnHeads P) (store_body v id kind body)
  unfolding store_body
  Keeps-store_body v id kind body = Keeps-call_table v _ _ (λ d h. h)

module _ {P P' : HeadRows → Type 0} where
  set_heads-Post :
      (v : Vault) (id : ℕ) (after : Option HeadRows) (w : World Desk)
      → ((rows : HeadRows) → after ≡ some rows → P' rows)
      → OnHeads P w
      → Post (λ _ w. OnHeads P' w) (λ _ w. OnHeads P w) (set_heads v id after w)
  unfolding set_heads
  set_heads-Post v id none w k h = h
  set_heads-Post v id (some rows) w k h = record { holds = k rows refl }

  -- A head is written at the version that is expected, or nothing is.
  pub Runs-put_head :
      (v : Vault) (s : Session) (head : List ℕ) (expect : ℕ)
      → ((rows after : HeadRows)
          → P rows
          → put_session_head s head expect rows ≡ some after
          → P' after)
      → Runs (OnHeads P) (put_head v s head expect) (λ _ w. OnHeads P' w) (λ _ w. OnHeads P w)
  unfolding put_head
  Runs-put_head v s head expect k = Runs-bind (Keeps-Runs (Keeps-call v (upsert_head s.id))) (λ _.
      record {
        at = λ w h.
            set_heads-Post v s.id (put_session_head s head expect w.device.heads) w
              (λ rows e. k w.device.heads rows h.holds e) h;
      })

-- The session that the stored head of this id reads as.
pub record Reads (v : Vault) (id : ℕ) (s : Session) (rows : HeadRows) : Type 0 where
  pub row : HeadRow
  pub found : row_at id rows ≡ some row
  pub reads : v.unmarshal_session row.head ≡ some s

module _ (v : Vault) (id : ℕ) where
  -- Nothing is read only of a session that is not stored.
  pub data Found (rows : HeadRows) : Option Session → Type 0 where
    absent : row_at id rows ≡ none → Found rows none
    present : (s : Session) → Reads v id s rows → Found rows (some s)

  abbrev pub Known : (HeadRows → Type 0) → Option Session → World Desk → Type 0
  Known P found w = OnHeads P w × Found w.device.heads found

  module _ {P : HeadRows → Type 0} where
    read_row :
        (row : HeadRow) (o : Option Session) (w : World Desk)
        → row_at id w.device.heads ≡ some row
        → v.unmarshal_session row.head ≡ o
        → OnHeads P w
        → Post (Known P) (λ _ w. OnHeads P w) ((some_or unreadable o >>= λ s. pure (some s)) w)
    unfolding some_or
    read_row row none w e u h = h
    read_row row (some s) w e u h = (h, present s (record { row = row; found = e; reads = u }))

    read_bytes-Post :
        (o : Option HeadRow) (w : World Desk)
        → row_at id w.device.heads ≡ o
        → OnHeads P w
        → Post
            (Known P)
            (λ _ w. OnHeads P w)
            (read_bytes v (elim o [ none ↦ none | some r ↦ some r.head ]) w)
    unfolding read_bytes
    read_bytes-Post none w e h = (h, absent e)
    read_bytes-Post (some row) w e h =
        read_row row (v.unmarshal_session row.head) _ e refl (record { holds = h.holds })

    pub Runs-read_session : Runs (OnHeads P) (read_session v id) (Known P) (λ _ w. OnHeads P w)
    unfolding read_session get_session_head
    Runs-read_session =
        Runs-bind (Keeps-Runs (Keeps-call v (select_head id)))
          (λ _. record { at = λ w h. read_bytes-Post (row_at id w.device.heads) w refl h })

    session-Post :
        (o : Option Session) (w : World Desk)
        → Known P o w
        → Post
            (λ s w. OnHeads P w × Reads v id s w.device.heads)
            (λ _ w. OnHeads P w)
            (some_or (no_session id) o w)
    unfolding some_or
    session-Post none w (h, f) = h
    session-Post (some _) w (h, present s r) = (h, r)

    pub Runs-session :
        Runs
          (OnHeads P)
          (session v id)
          (λ s w. OnHeads P w × Reads v id s w.device.heads)
          (λ _ w. OnHeads P w)
    unfolding session
    Runs-session = Runs-bind Runs-read_session (λ o. record { at = session-Post o })
