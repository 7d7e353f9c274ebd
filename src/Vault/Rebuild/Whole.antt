-- ===== src/Vault/Rebuild/Whole.antt =====
-- The head that a rebuild stores, of a conversation that this device has no head of.
use mnemosia.Prelude.{
  ℕ, ◌≡◌, ◌≢◌, refl, sym, ap, ◌∙◌, subst, Bool, false, length, List, [], ◌∷◌, ◌++◌, map, Option,
  none, some, String, arith,
}
use mnemosia.Prelude.Exec.{Post, Runs, Runs-bind, Runs-pure, Runs-if, Runs-gets, Runs-as, ◌>>=◌}
use mnemosia.Service.{World, select_head, put_ranking, upsert_head}
use mnemosia.Record.Invalid.{Invalid}
use mnemosia.Record.Chunk.{Chunk, ChunkRef}
use mnemosia.Record.Session.{Session, session_validate}
use mnemosia.Local.Sessions.{HeadRows, row_at, row_of, put_session_head, get_session_head}
use mnemosia.Local.Sessions.Rows.{Stands, put_row-Stands, put_row-absent}
use mnemosia.Vault.Desk.{Desk, unwritable, Vault, check_valid, set_heads, put_head}
use mnemosia.Vault.Desk.Keeps.{OnHeads, Reads}
use mnemosia.Vault.Rebuild.Facts.{Texts, observe_transcript, synthesise_title}
use mnemosia.Vault.Rebuild.Gather.{group_chunks_by_session, has_sequence_gap}
use mnemosia.Vault.Rebuild.Head.{
  RebuildRequest, RebuiltHead, draft_head, draft_origins, held_head, over, embed_head, write_head,
  store_rebuilt_head, kept_head, settle_head, finish_head, rebuild_head,
}
use mnemosia.Vault.Rebuild.Sequence.{
  Reorders, IsSequence, of_session, chunks_in, chunks_in-group_chunks_by_session,
  has_sequence_gap-IsSequence,
}
use mnemosia.Vault.Rebuild.Same.{
  Answers, AreRefsOf, Never, call-Returns, some-Returns, chunk_refs-Returns,
}
use mnemosia.Vault.Rebuild.Valid.{AreValid, Titled, draft_head-valid}

module _ (id : ℕ) where
  abbrev Headless : HeadRows → Type 0
  Headless rows = row_at id rows ≡ none

  Headless-get_session_head : (rows : HeadRows) → Headless rows → get_session_head id rows ≡ none
  unfolding get_session_head
  Headless-get_session_head rows h = ground (arith, h)

module _ (v : Vault) (cid_of : List ℕ → String) (answers : Answers v cid_of) (texts : Texts)
    (id : ℕ) where
  Headless-set_heads :
      (s : Session) (head : List ℕ) (w : World Desk)
      → s.id ≡ id
      → Headless id w.device.heads
      → Post
          (λ _ w. OnHeads (Stands id (row_of s head)) w)
          Never
          (set_heads v s.id (put_session_head s head 0 w.device.heads) w)
  unfolding put_session_head set_heads row_of
  Headless-set_heads s head w same h =
      let there : row_at s.id w.device.heads ≡ none = ap (λ i. row_at i w.device.heads) same ∙ h in
      let put = put_row-absent (row_of s head) 0 w.device.heads there in
      subst (λ o. Post (λ _ w. OnHeads (Stands id (row_of s head)) w) Never (set_heads v s.id o w))
        (sym put)
        (record {
          holds =
              subst (λ i. Stands i (row_of s head) (w.device.heads ++ row_of s head ∷ [])) same
                (put_row-Stands (row_of s head) 0 w.device.heads _ put);
        })

  put_head-Returns :
      (s : Session) (head : List ℕ)
      → s.id ≡ id
      → Runs
          (OnHeads (Headless id))
          (put_head v s head 0)
          (λ _ w. OnHeads (Stands id (row_of s head)) w)
          Never
  unfolding put_head
  put_head-Returns s head same =
      Runs-bind (call-Returns v cid_of answers (upsert_head s.id))
        λ _. record { at = λ w h. Headless-set_heads s head w same h.holds }

  held_head-Returns :
      Runs
        (OnHeads (Headless id))
        (held_head v texts id)
        (λ o w. (o ≡ none) × OnHeads (Headless id) w)
        Never
  unfolding held_head
  held_head-Returns =
      Runs-bind (call-Returns v cid_of answers (select_head id))
        λ _. record { at = λ w h. (Headless-get_session_head id w.device.heads h.holds, h) }

  kept_head-Returns :
      (req : RebuildRequest)
      → Runs
          (OnHeads (Headless id))
          (kept_head v texts req id)
          (λ o w. (o ≡ none) × OnHeads (Headless id) w)
          Never
  unfolding kept_head
  kept_head-Returns req = Runs-if req.overwrite (Runs-pure none λ w h. (refl, h)) held_head-Returns

  write_head-Returns :
      (s : Session) (head : List ℕ)
      → s.id ≡ id
      → v.unmarshal_session head ≡ some s
      → Runs
          (OnHeads (Headless id))
          (write_head v texts false (s, head, 0))
          (λ r w. (r ≡ s) × Reads v id s w.device.heads)
          Never
  unfolding write_head embed_head row_of
  write_head-Returns s head same reads = Runs-bind (put_head-Returns s head same) λ _.
      Runs-bind (call-Returns v cid_of answers (put_ranking s.id)) λ _. Runs-pure s λ w h. (
        refl,
        record {
          row = h.holds.row;
          found = h.holds.found;
          reads = ap v.unmarshal_session h.holds.head ∙ reads;
        },
      )

  store-Returns :
      (s : Session) (head : List ℕ)
      → s.id ≡ id
      → v.marshal_session s ≡ some head
      → Runs
          (OnHeads (Headless id))
          (store_rebuilt_head v texts s false)
          (λ r w. (r ≡ s) × Reads v id s w.device.heads)
          Never
  unfolding store_rebuilt_head over
  store-Returns s head same written =
      Runs-bind (some-Returns v cid_of answers unwritable (v.marshal_session s) head written) (
        Runs-as _ head (
          Runs-bind
            (subst
              (λ i.
                Runs (OnHeads (Headless id)) (held_head v texts i)
                  (λ o w. (o ≡ none) × OnHeads (Headless id) w) Never)
              (sym same) held_head-Returns)
            (Runs-as (λ o. over v texts s head o >>= write_head v texts false) none
              (write_head-Returns s head same (answers.reads s head written)))))

-- The head that is drafted, at whichever time, has a form as JSON.
abbrev pub IsWritten : Vault → Texts → ℕ → List Chunk → List ChunkRef → List ℕ → Type 0
IsWritten v texts id cs refs backlinks =
    (now : ℕ)
    → (head : List ℕ) × (v.marshal_session
          (draft_head texts now id cs refs (observe_transcript v.marshal_chunk cs) backlinks)
        ≡ some head)

-- A head was stored that has these chunks, and it reads back as it was built.
pub record Restored (v : Vault) (id : ℕ) (refs : List ChunkRef) (built : RebuiltHead)
    (w : World Desk) : Type 0 where
  pub fresh : built.existing ≡ false
  pub chunks : built.session.chunks ≡ refs
  pub stored : Reads v id built.session w.device.heads

module _ (v : Vault) (cid_of : List ℕ → String) (answers : Answers v cid_of) (texts : Texts)
    (id : ℕ) where
  settle_head-Returns :
      (overwrite : Bool) (built : RebuiltHead) (refs : List ChunkRef) (head : List ℕ)
      → built.session.id ≡ id
      → v.marshal_session built.session ≡ some head
      → built.session.chunks ≡ refs
      → built.existing ≡ false
      → Runs
          (OnHeads (Headless id))
          (settle_head v texts (record { overwrite = overwrite; embed = false }) built none)
          (λ b w. Restored v id refs b w)
          Never
  unfolding settle_head
  settle_head-Returns overwrite built refs head same written has new =
      Runs-bind (store-Returns v cid_of answers texts id built.session head same written) λ s.
        Runs-pure _ λ w (is, reads). record {
          fresh = new;
          chunks = ap (λ (t : Session). t.chunks) is ∙ has;
          stored = subst (λ t. Reads v id t w.device.heads) (sym is) reads;
        }

  checked :
      (o : Option Invalid)
      → o ≡ none
      → Runs (OnHeads (Headless id)) (check_valid o) (λ _ w. OnHeads (Headless id) w) Never
  unfolding check_valid
  checked o h =
      subst
        (λ o. Runs (OnHeads (Headless id)) (check_valid o) (λ _ w. OnHeads (Headless id) w) Never)
        (sym h) (Runs-pure tt λ w k. k)

  module _ (overwrite : Bool) (c : Chunk) (cs : List Chunk) (refs : List ChunkRef)
      (backlinks : List ℕ) (proper : id ≢ 0) (of : AreRefsOf v cid_of 0 (c ∷ cs) refs)
      (valid : AreValid v.trim_space (c ∷ cs))
      (titled : Titled v.trim_space (synthesise_title texts (c ∷ cs) id))
      (written : IsWritten v texts id (c ∷ cs) refs backlinks) where
    finish_head-Returns :
        Runs
          (OnHeads (Headless id))
          (finish_head v texts
            (record { overwrite = overwrite; embed = false })
            id
            (c ∷ cs)
            backlinks
            refs)
          (λ b w. Restored v id refs b w)
          Never
    unfolding finish_head draft_head
    finish_head-Returns = Runs-bind (Runs-gets (λ w. v.env.now w.calls)) λ now.
        let facts = observe_transcript v.marshal_chunk (c ∷ cs) in
        let s = draft_head texts now id (c ∷ cs) refs facts backlinks in
        let built : RebuiltHead = record {
          session = s;
          origins = draft_origins s facts;
          chunks = length (c ∷ cs);
          messages = facts.messages;
          existing = false;
        } in
        let req : RebuildRequest = record { overwrite = overwrite; embed = false } in
        Runs-bind
          (checked (session_validate v.trim_space s) (
            draft_head-valid v cid_of texts now id c cs refs facts backlinks proper of valid
              titled))
          λ _.
            Runs-bind {f = settle_head v texts req built}
              (kept_head-Returns v cid_of answers texts id req)
              (Runs-as (settle_head v texts req built) none (
                settle_head-Returns overwrite built refs (written now).0 refl (written now).1 refl
                  refl))

    rebuild_head-Returns :
        Runs
          (OnHeads (Headless id))
          (rebuild_head v texts id
            (c ∷ cs)
            backlinks
            (record { overwrite = overwrite; embed = false }))
          (λ b w. Restored v id refs b w)
          Never
    unfolding rebuild_head
    rebuild_head-Returns =
        Runs-bind (chunk_refs-Returns v cid_of answers texts 0 (c ∷ cs) refs of)
          (Runs-as _ refs finish_head-Returns)

-- A conversation's chunks, one at least and each valid, are listed in any order among those of other
-- conversations and what cannot be read; its head held them in their sequence, as `writeChunk` made
-- them, and is gone from the device. Then a rebuild that is not to embed, as `Hydrate` asks for at the
-- depths that make no vectors, finds no gap in it, and, where no call is refused, the title that it
-- makes is well formed and the head has a form as JSON, it returns a head with exactly the chunks of
-- the one that is gone, and that head is stored and reads back. Nothing is said of one that embeds.
pub rebuild_head-Restored :
    (v : Vault) (cid_of : List ℕ → String) (texts : Texts) (read_chunk : ℕ → Option Chunk)
    (ids : List ℕ) (id : ℕ) (c : Chunk) (cs : List Chunk) (refs : List ChunkRef)
    (backlinks : List ℕ) (overwrite : Bool) (w : World Desk)
    → Answers v cid_of
    → id ≢ 0
    → Reorders (of_session id (map read_chunk ids)) (c ∷ cs)
    → IsSequence 0 (c ∷ cs)
    → AreRefsOf v cid_of 0 (c ∷ cs) refs
    → AreValid v.trim_space (c ∷ cs)
    → Titled v.trim_space (synthesise_title texts (c ∷ cs) id)
    → IsWritten v texts id (c ∷ cs) refs backlinks
    → row_at id w.device.heads ≡ none
    → (has_sequence_gap (chunks_in id (group_chunks_by_session read_chunk ids).groups) ≡ false)
      × Post
          (λ built after. Restored v id refs built after)
          Never
          (rebuild_head v texts id
            (chunks_in id (group_chunks_by_session read_chunk ids).groups)
            backlinks
            (record { overwrite = overwrite; embed = false })
            w)
rebuild_head-Restored v cid_of texts read_chunk ids id c cs refs backlinks overwrite w answers
      proper order sequence of valid titled written gone =
    let found =
      chunks_in-group_chunks_by_session read_chunk id ids (c ∷ cs) proper order sequence in
    (
      ap has_sequence_gap found ∙ has_sequence_gap-IsSequence (c ∷ cs) sequence,
      subst
          (λ chunks.
            Post (λ built after. Restored v id refs built after) Never
              (rebuild_head v texts id chunks backlinks
                (record { overwrite = overwrite; embed = false }) w))
          (sym found)
          ((rebuild_head-Returns v cid_of answers texts id overwrite c cs refs backlinks proper of
              valid titled written).at
            w (record { holds = gone })),
    )
