-- ===== src/Vault/Session/Valid.antt =====
-- Every head that a vault stores is one that a session may have.
pub mod Rebuilds
pub mod Operations
use mnemosia.Prelude.{
  ℕ, suc, ◌+◌, ◌≡◌, refl, sym, ap, subst, ◌∙◌, nat_eq, Bool, true, false, Bool-cases, not, ◌&&◌,
  inl, inr, List, [], ◌∷◌, ◌++◌, Option, none, some, Option-cases, String, string_keys, number_keys,
  ◌==◌, contains, length, arith, if◌then◌else◌,
}
use mnemosia.Prelude.Exec.{
  Result, ok, err, Exec, Post, Runs, Keeps, Runs-bind, Keeps-bind, Keeps-if, Keeps-Runs, Runs-Keeps,
  Keeps-pure, Keeps-fail, Runs-pure, Runs-gets, Runs-forget, Runs-given, Runs-if, pure, fail, gets,
  ◌>>=◌, ◌>>◌,
}
use mnemosia.Service.{
  World, embed_text, put_vector, put_ranking, of_vault, remove_entry, remove_vector, forget_ranking,
  delete_head,
}
use mnemosia.Record.Session.{Session, fields_validate, session_validate, index_text}
use mnemosia.Local.Sessions.{
  HeadRow, HeadRows, row_at, row_of, put_row, put_session_head, forget_session_head,
}
use mnemosia.Local.Sessions.Rows.{put_row-Stands, put_row-other, row_at-forget_session_head}
use mnemosia.Vault.Desk.{
  Desk, Vault, Method, unwritable, unmeasured, some_or, check_valid, call, put_head, session,
  read_session,
}
use mnemosia.Vault.Desk.Keeps.{
  OnHeads, Reads, Found, absent, present, Runs-put_head, Runs-some_or, Runs-check_valid,
  Keeps-asked, Keeps-call, Keeps-call_table, Runs-session, Runs-read_session,
}
use mnemosia.Record.Chunk.{ChunkRef, split_messages, chunk_target_bytes}
use mnemosia.Vault.Request.{SaveSessionRequest, apply_head_updates, validate_append}
use mnemosia.Vault.Session.{
  Saving, new_session, open_existing, open_session, write_chunks, store_head, revise_head,
}
use mnemosia.Vault.Session.Chunks.{Keeps-fresh_id, Runs-write_chunks}
use mnemosia.Vault.Session.Save.{start_saving, adopt_new, save_head, finish_saving, save_session}
use mnemosia.Vault.Session.Forget.{forget_chunks, leave_parent, forget_session}
use mnemosia.Vault.Session.Edges.{
  adopt_child, adopt_into, link_memory, link_into, disown_from, disown_child,
}
use mnemosia.Vault.Session.Save.Appends.{RoundTrip, Runs-finish}

-- The row's head reads as a session of its key and version that is well formed.
pub record IsWellFormed (v : Vault) (id : ℕ) (row : HeadRow) : Type 0 where
  pub session : Session
  pub reads : v.unmarshal_session row.head ≡ some session
  pub its_id : session.id ≡ id
  pub its_version : session.version ≡ row.version
  pub valid : session_validate v.trim_space session ≡ none

pub record AllWellFormed (v : Vault) (rows : HeadRows) : Type 0 where
  pub each : (id : ℕ) (row : HeadRow) → row_at id rows ≡ some row → IsWellFormed v id row

module _ (v : Vault) (trip : RoundTrip v) where
  or_row : HeadRow → Option HeadRow → HeadRow
  or_row d none = d
  or_row d (some r) = r

  pub put_keeps :
      (s : Session) (head : List ℕ) (expect : ℕ) (rows after : HeadRows)
      → v.marshal_session s ≡ some head
      → session_validate v.trim_space s ≡ none
      → AllWellFormed v rows
      → put_session_head s head expect rows ≡ some after
      → AllWellFormed v after
  unfolding put_session_head row_of put_row or_row
  put_keeps s head expect rows after e valid all put = record {
    each = λ id row found. elim (Bool-cases (nat_eq s.id id)) [
      | inl same ↦
          let st = put_row-Stands (row_of s head) expect rows after put in
          let here : s.id ≡ id = ground (arith, same) in
          let it : st.row ≡ row =
            ap (or_row st.row) (sym st.found ∙ ap (λ i. row_at i after) here ∙ found) in
          record {
            session = s;
            reads =
                ap (λ (r : HeadRow). v.unmarshal_session r.head) (sym it)
                ∙ ap v.unmarshal_session st.head
                ∙ trip s head e;
            its_id = here;
            its_version = sym st.version ∙ ap (λ (r : HeadRow). r.version) it;
            valid = valid;
          }
      | inr other ↦
          all.each id row
            (sym (put_row-other (row_of s head) expect rows after id put other) ∙ found)
    ];
  }

  abbrev pub Holds : World Desk → Type 0
  Holds w = OnHeads (AllWellFormed v) w

  abbrev pub Stays : {A : Type 0} → Method A → Type 0
  Stays m = Runs Holds m (λ _ w. Holds w) (λ _ w. Holds w)

  put_head-Stays :
      (s : Session) (from : ℕ)
      → session_validate v.trim_space s ≡ none
      → Stays (do head ← some_or unwritable (v.marshal_session s); put_head v s head from)
  put_head-Stays s from valid = Runs-bind (Runs-some_or unwritable (v.marshal_session s)) (λ head.
      Runs-given (λ e.
        Runs-put_head v s head from
          (λ rows after all put. put_keeps s head from rows after e valid all put)))

  -- A head may be given another version, time, children and memories.
  revised-valid :
      (s : Session) (now : ℕ) (children memories : List ℕ)
      → session_validate v.trim_space s ≡ none
      → session_validate v.trim_space (record s {
        version = suc s.version;
        updated = now;
        lineage = record s.lineage { children = children };
        memories = memories;
      })
        ≡ none
  unfolding session_validate fields_validate
  revised-valid s now children memories h = ground (arith, h)

  pub revise_head-Stays :
      (s : Session) (children memories : List ℕ)
      → session_validate v.trim_space s ≡ none
      → Stays (
          revise_head v
            (record s { lineage = record s.lineage { children = children }; memories = memories }))
  unfolding revise_head
  revise_head-Stays s children memories valid =
      Runs-bind (Runs-gets (λ w. v.env.now w.calls))
        (λ now. put_head-Stays _ s.version (revised-valid s now children memories valid))

  unfoldable pub or_session : Session → Option Session → Session
  or_session d none = d
  or_session d (some s) = s

  pub read-valid :
      (id : ℕ) (s : Session) (rows : HeadRows)
      → AllWellFormed v rows
      → Reads v id s rows
      → session_validate v.trim_space s ≡ none
  unfolding or_session
  read-valid id s rows all r =
      let w = all.each id r.row r.found in
      ap (λ s. session_validate v.trim_space s) (ap (or_session s) (sym r.reads ∙ w.reads))
      ∙ w.valid

  -- A session that was read may be revised.
  pub read_and :
      {A : Type 0} (id : ℕ) (next : Session → Method A)
      → ((s : Session) → session_validate v.trim_space s ≡ none → Stays (next s))
      → Stays (session v id >>= next)
  read_and id next k =
      Runs-bind (Runs-session v id)
        (λ s. record { at = λ w (h, r). (k s (read-valid id s w.device.heads h.holds r)).at w h })
