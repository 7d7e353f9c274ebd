-- ===== src/Vault/Session/Save/Appends.antt =====
-- Saving more of a conversation that is stored.
use mnemosia.Prelude.{
  ℕ, suc, ◌+◌, ◌<◌, ◌≡◌, refl, sym, ap, subst, ◌∙◌, ◌⊎◌, inl, inr, nat_eq, false, not, List, ◌++◌,
  Option, none, some, length, concat, arith, if◌then◌else◌,
}
use mnemosia.Prelude.Exec.{
  Post, Runs, Keeps, Runs-bind, Keeps-bind, Keeps-Runs, Keeps-pure, Runs-pure, Runs-gets,
  Runs-error, Runs-forget, Runs-given, Runs-if, Runs-if_true, Runs-post, pure,
}
use mnemosia.Service.{World, embed_text, put_vector, put_ranking, await_first_write, of_vault}
use mnemosia.Record.Message.{Message}
use mnemosia.Record.Chunk.{ChunkRef, split_messages, chunk_target_bytes}
use mnemosia.Record.Chunk.Split.{concat-split_messages}
use mnemosia.Record.Session.{Session, session_validate, index_text}
use mnemosia.Local.Sessions.{HeadRow, HeadRows, row_at, row_of, put_row, put_session_head}
use mnemosia.Local.Sessions.Rows.{put_row-Stands}
use mnemosia.Vault.Desk.{Desk, Error, unwritable, unmeasured, Vault, Method}
use mnemosia.Vault.Desk.Keeps.{
  OnHeads, Reads, Keeps-asked, Keeps-call, Keeps-on_packer, Runs-put_head, Runs-some_or,
  Runs-check_valid, Runs-session,
}
use mnemosia.Vault.Request.{SaveSessionRequest, apply_head_updates, validate_append}
use mnemosia.Vault.Session.{Saving, open_existing, open_session, store_head}
use mnemosia.Vault.Session.Chunks.{AreRefs, AreRefs-count, Extends, Runs-write_chunks}
use mnemosia.Vault.Session.Edges.{adopt_child}
use mnemosia.Vault.Session.Save.{
  start_saving, flush_all, result_of, finish_saving, adopt_new, save_head, save_session,
}

-- What is relied on of JSON: a head that was written is read back.
abbrev pub RoundTrip : Vault → Type 0
RoundTrip v =
    (s : Session) (head : List ℕ)
    → v.marshal_session s ≡ some head
    → v.unmarshal_session head ≡ some s

module _ (v : Vault) where
  module _ {P : HeadRows → Type 0} where
    Keeps-flush_all : Keeps (OnHeads P) (flush_all v)
    unfolding flush_all
    Keeps-flush_all = Keeps-bind _ _ (Keeps-call v await_first_write) (λ _. Keeps-on_packer _)

    pub Runs-finish :
        (req : SaveSessionRequest) (s : Session) (st : Saving)
        → Runs
            (OnHeads P)
            (finish_saving v req s st)
            (λ r w. (r.chunks ≡ st.chunks) × OnHeads P w)
            (λ _ w. OnHeads P w)
    unfolding finish_saving result_of
    Runs-finish req s st =
        Runs-if _
          (Runs-bind (Keeps-Runs Keeps-flush_all) (λ flushed. Runs-pure _ (λ w h. (refl, h))))
          (Runs-pure _ (λ w h. (refl, h)))

  -- The head that is written is the one that stands, and reads as it was.
  Runs-store_head :
      {P P' : HeadRows → Type 0} (s : Session) (vector : List ℕ) (from : ℕ)
      → RoundTrip v
      → ((rows : HeadRows) → Reads v s.id s rows → P' rows)
      → Runs
          (OnHeads P)
          (store_head v s vector from)
          (λ _ w. OnHeads P' w)
          (λ _ w. OnHeads (λ rows. P rows ⊎ P' rows) w)
  unfolding store_head put_row put_session_head row_of
  Runs-store_head s vector from trip k =
      Runs-bind
        (Runs-error (λ w h. record { holds = inl h.holds })
          (Runs-some_or unwritable (v.marshal_session s)))
        (λ head. Runs-given (λ e.
          Runs-bind
            (Runs-error (λ w h. record { holds = inl h.holds })
              (Runs-put_head v s head from
                (λ rows after h put. k after (stands head rows after e put))))
            (λ _.
              Runs-error (λ w h. record { holds = inr h.holds })
                (Runs-bind (Keeps-Runs (Keeps-call v (put_vector s.id vector)))
                  (λ _. Keeps-Runs (Keeps-call v (put_ranking s.id)))))))
    where
      stands :
          (head : List ℕ) (rows after : HeadRows)
          → v.marshal_session s ≡ some head
          → put_session_head s head from rows ≡ some after
          → Reads v s.id s after
      stands head rows after e put =
          let st = put_row-Stands (row_of s head) from rows after put in
          record {
            row = st.row;
            found = st.found;
            reads = ap v.unmarshal_session st.head ∙ trip s head e;
          }

-- What a save has made of a head: its chunks with those of the request after them, one version on.
pub record IsSaved (old : Session) (req : SaveSessionRequest) (refs : List ChunkRef) (s : Session)
    : Type 0 where
  pub groups : List (List Message)
  pub whole : concat groups ≡ req.messages
  pub each : AreRefs (length old.chunks) groups refs
  pub chunks : s.chunks ≡ old.chunks ++ refs
  pub version : s.version ≡ suc old.version
  pub messages : s.counts.messages ≡ old.counts.messages + length req.messages

-- The head that stands is what the save has made.
pub record Saved (v : Vault) (old : Session) (req : SaveSessionRequest) (refs : List ChunkRef)
    (rows : HeadRows) : Type 0 where
  pub head : Session
  pub stands : Reads v req.id head rows
  pub made : IsSaved old req refs head

module _ (v : Vault) (old : Session) (req : SaveSessionRequest) where
  abbrev reopened : Session
  reopened = record old { version = suc old.version; embedding = v.model }

  updated-IsSaved :
      (now : ℕ) (groups : List (List Message)) (st : Saving)
      → concat groups ≡ req.messages
      → Extends (start_saving reopened) groups st
      → IsSaved old req st.chunks (apply_head_updates v.trim_space v.to_lower now st.session req)
        × ((apply_head_updates v.trim_space v.to_lower now st.session req).id ≡ old.id)
  unfolding apply_head_updates
  updated-IsSaved now groups st whole ext = (
    record {
      groups = groups;
      whole = whole;
      each = subst (AreRefs (length old.chunks) groups) (sym ext.chunks) ext.each;
      chunks =
          ap (λ (s : Session). s.chunks) ext.session ∙ ap (λ l. old.chunks ++ l) (sym ext.chunks);
      version = ap (λ (s : Session). s.version) ext.session;
      messages =
          ap (λ (s : Session). s.counts.messages) ext.session
          ∙ ap (λ n. old.counts.messages + n)
              (AreRefs-count _ groups ext.refs ext.each ∙ ap length whole);
    },
    ap (λ (s : Session). s.id) ext.session,
  )

  module _ (row : HeadRow) where
    abbrev Was : HeadRows → Type 0
    Was rows = row_at req.id rows ≡ some row

    -- Either the head is as it was, or it is a whole one with chunks of this save.
    abbrev pub WasOrSaved : HeadRows → Type 0
    WasOrSaved rows = Was rows ⊎ ((refs : List ChunkRef) × Saved v old req refs rows)

    abbrev Unsaved : Error → World Desk → Type 0
    Unsaved e w = OnHeads WasOrSaved w

    still :
        {A : Type 0} {P : World Desk → Type 0} {Q : A → World Desk → Type 0} {m : Method A}
        → Runs P m Q (λ _ w. OnHeads Was w)
        → Runs P m Q Unsaved
    still = Runs-error (λ w h. record { holds = inl h.holds })

    then_still :
        (refs : List ChunkRef) {A : Type 0} {P : World Desk → Type 0} {Q : A → World Desk → Type 0}
        {m : Method A}
        → Runs P m Q (λ _ w. OnHeads (Saved v old req refs) w)
        → Runs P m Q Unsaved
    then_still refs = Runs-error (λ w h. record { holds = inr (refs, h.holds) })

    module _ (trip : RoundTrip v) (reads : v.unmarshal_session row.head ≡ some old)
        (its_id : old.id ≡ req.id) (positive : 0 < old.version) where
      determined :
          (s : Session) (w : World Desk) → OnHeads Was w → Reads v req.id s w.device.heads → s ≡ old
      determined s w h r =
          let same : some r.row ≡ some row = sym r.found ∙ h.holds in
          ap (value old) (sym r.reads ∙ ap v.unmarshal_session (ap (head_of row.head) same) ∙ reads)
        where
          value : Session → Option Session → Session
          value d none = d
          value d (some s) = s

          head_of : List ℕ → Option HeadRow → List ℕ
          head_of d none = d
          head_of d (some r) = r.head

      Runs-open_existing :
          Runs
            (OnHeads Was)
            (open_existing v req.id)
            (λ x w. ((x.0 ≡ reopened) × (x.1 ≡ old.version)) × OnHeads Was w)
            Unsaved
      unfolding open_existing
      Runs-open_existing = Runs-bind (still (Runs-session v req.id)) (λ s. record {
        at = λ w (h, r).
            let same : s ≡ old = determined s w h r in
            (
              (
                ap (λ (s : Session). record s { version = suc s.version; embedding = v.model })
                    same,
                ap (λ (s : Session). s.version) same,
              ),
              h,
            );
      })

      adopt_none :
          (P : HeadRows → Type 0) (from : ℕ) (s : Session) (parent : Option ℕ)
          → from ≡ old.version
          → Keeps (OnHeads P) (adopt_new v from s parent)
      unfolding adopt_new
      adopt_none P from s none e = Keeps-pure tt
      adopt_none P from s (some p) e =
          let later : nat_eq from 0 ≡ false = ground (arith, e, positive) in
          subst (λ b. Keeps (OnHeads P) (if b then adopt_child v p s.id else pure tt)) (sym later)
            (Keeps-pure tt)

      whole_or_not :
          (refs : List ChunkRef) (w : World Desk)
          → OnHeads (λ rows. Was rows ⊎ Saved v old req refs rows) w
          → OnHeads WasOrSaved w
      whole_or_not refs w h = elim h.holds [
        | inl was ↦ record { holds = inl was }
        | inr new ↦ record { holds = inr (refs, new) }
      ]

      Runs-stored :
          (refs : List ChunkRef) (s : Session) (vector : List ℕ) (from : ℕ)
          → s.id ≡ req.id
          → IsSaved old req refs s
          → Runs
              (OnHeads Was)
              (store_head v s vector from)
              (λ _ w. OnHeads (Saved v old req refs) w)
              Unsaved
      Runs-stored refs s vector from same made = Runs-error (whole_or_not refs) (
          Runs-store_head v s vector from trip (λ rows r. record {
            head = s;
            stands = subst (λ id. Reads v id s rows) same r;
            made = made;
          }))

      Runs-save_head :
          (from : ℕ) (groups : List (List Message)) (st : Saving)
          → from ≡ old.version
          → concat groups ≡ req.messages
          → Extends (start_saving reopened) groups st
          → Runs
              (OnHeads Was)
              (save_head v req from st)
              (λ r w. (r.chunks ≡ st.chunks) × OnHeads (Saved v old req st.chunks) w)
              Unsaved
      unfolding save_head
      Runs-save_head from groups st e whole ext =
          Runs-bind (Runs-gets (λ w. v.env.now w.calls)) (λ now.
            let s = apply_head_updates v.trim_space v.to_lower now st.session req in
            let (made, same) = updated-IsSaved now groups st whole ext in
            Runs-bind (still (Runs-forget _ (Runs-check_valid (session_validate v.trim_space s))))
              (λ _.
                Runs-bind
                  (still (
                    Keeps-Runs (
                      Keeps-asked (of_vault (embed_text (index_text s)))
                        (λ calls. v.on_embed calls (index_text s)))))
                  (λ vector.
                    Runs-bind (Runs-stored st.chunks s vector from (same ∙ its_id) made) (λ _.
                      Runs-bind
                        (then_still st.chunks
                          (Keeps-Runs (adopt_none _ from s s.lineage.parent_session e)))
                        (λ _. then_still st.chunks (Runs-finish v req s st))))))

      Runs-open_session :
          nat_eq req.id 0 ≡ false
          → Runs
              (OnHeads Was)
              (open_session v req)
              (λ x w. ((x.0 ≡ reopened) × (x.1 ≡ old.version)) × OnHeads Was w)
              Unsaved
      unfolding open_session
      Runs-open_session existing =
          Runs-if_true (not (nat_eq req.id 0)) _ (ground (arith, existing)) Runs-open_existing

      Runs-save_session :
          nat_eq req.id 0 ≡ false
          → Runs
              (OnHeads Was)
              (save_session v req)
              (λ r w. OnHeads (Saved v old req r.chunks) w)
              Unsaved
      unfolding save_session
      Runs-save_session existing = Runs-bind (Runs-open_session existing) (λ (s, from).
          Runs-given (λ (same, e).
            Runs-bind
              (still
                (Runs-forget _ (Runs-check_valid (validate_append v.trim_space s req.messages))))
              (λ _.
                Runs-bind
                  (still (
                    Runs-some_or unmeasured
                      (split_messages v.message_bytes req.messages chunk_target_bytes)))
                  (λ groups. Runs-given (λ split.
                    Runs-bind (still (Runs-write_chunks v (start_saving s) groups)) (λ st.
                      Runs-given (λ ext.
                        Runs-post
                          (λ r w (told, h).
                            subst (λ refs. OnHeads (Saved v old req refs) w) (sym told) h)
                          (Runs-save_head from groups st e
                            (concat-split_messages v.message_bytes req.messages chunk_target_bytes
                              groups split)
                            (subst (λ s. Extends (start_saving s) groups st) same ext)))))))))

      -- A vault reads back the heads that it writes, and holds a head of the request's session, of a
      -- version that is not 0. Then saving onto that session, if it returns, leaves a head whose
      -- chunks are the old ones and after them those of the result, one for each group of the
      -- request's messages, sequenced on from the old; that is one version on, and counts the new
      -- messages. If it fails, the head is as it was or is such a whole one.
      pub save_session-Appends :
          (w : World Desk)
          → nat_eq req.id 0 ≡ false
          → row_at req.id w.device.heads ≡ some row
          → Post
              (λ r after. OnHeads (Saved v old req r.chunks) after)
              (λ _ after. OnHeads WasOrSaved after)
              (save_session v req w)
      save_session-Appends w existing h = (Runs-save_session existing).at w (record { holds = h })
