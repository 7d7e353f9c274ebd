-- ===== src/Vault/Session/Valid/Rebuilds.antt =====
-- A rebuild of the conversations keeps the stored heads well formed.
use mnemosia.Prelude.{
  ℕ, suc, ◌≡◌, Bool, true, false, List, [], ◌∷◌, Option, none, some, string_keys, number_keys,
  arith, length, map_get, if◌then◌else◌,
}
use mnemosia.Prelude.Exec.{
  Runs, Runs-bind, Keeps-Runs, Runs-pure, Runs-gets, Runs-forget, Runs-given, Runs-if,
}
use mnemosia.Service.{
  hash_body, select_head, put_ranking, put_vector, embed_text, of_vault, select_body, list_bodies,
}
use mnemosia.Record.Kind.{Kind, kind_chunk, kind_memory}
use mnemosia.Record.Chunk.{Chunk, ChunkRef}
use mnemosia.Record.Session.{Session, fields_validate, session_validate, index_text}
use mnemosia.Manifest.Entry.{Entry}
use mnemosia.Vault.Desk.{Vault, unwritable, unreadable, unreadable_memory}
use mnemosia.Vault.Desk.Keeps.{
  Runs-put_head, Runs-some_or, Runs-check_valid, Keeps-asked, Keeps-call,
}
use mnemosia.Vault.Rebuild.{
  Codec, RebuildReport, Backlinks, reachable_ids, link_body, link_memories, memory_backlinks,
  rebuild_each, rebuild_sessions,
}
use mnemosia.Vault.Rebuild.Facts.{Texts, observe_transcript}
use mnemosia.Vault.Rebuild.Gather.{Gathered, record_ids, body_ids_of_kind}
use mnemosia.Vault.Rebuild.Head.{
  RebuildRequest, RebuiltHead, draft_head, draft_origins, chunk_ref, chunk_refs, held_head, over,
  embed_head, write_head, store_rebuilt_head, kept_head, settle_head, finish_head, rebuild_head,
}
use mnemosia.Vault.Session.Save.Appends.{RoundTrip}
use mnemosia.Vault.Session.Valid.{Stays, Holds, put_keeps}

module _ (v : Vault) (trip : RoundTrip v) where
  -- A head may be given another version that is not 0, and the vault's model.
  later-valid :
      (s : Session) (version : ℕ)
      → session_validate v.trim_space s ≡ none
      → session_validate v.trim_space (record s { version = suc version }) ≡ none
  unfolding session_validate fields_validate
  later-valid s version h = ground (arith, h)

  embedded-valid :
      (embed : Bool) (s : Session)
      → session_validate v.trim_space s ≡ none
      → session_validate v.trim_space (if embed then record s { embedding = v.model } else s) ≡ none
  unfolding session_validate fields_validate
  embedded-valid true s h = h
  embedded-valid false s h = h

  reachable_ids-Stays :
      (kind : Kind) (entries : List Entry) → Stays v trip (reachable_ids v kind entries)
  unfolding reachable_ids
  reachable_ids-Stays kind entries = Runs-bind (Keeps-Runs (Keeps-call v (list_bodies kind))) (λ _.
      Runs-bind (Runs-gets (λ w. body_ids_of_kind kind w.device.bodies))
        (λ held. Runs-pure (record_ids kind entries held) (λ w h. h)))

  module _ (codec : Codec) where
    link_body-Stays :
        (id : ℕ) (body : Option (Kind × List ℕ)) (links : Backlinks)
        → Stays v trip (link_body v codec id body links)
    unfolding link_body
    link_body-Stays id none links = Runs-pure links (λ w h. h)
    link_body-Stays id (some (kind, body)) links =
        Runs-bind
          (Runs-forget _ (Runs-some_or (unreadable_memory id) (codec.unmarshal_memory body)))
          (λ m. Runs-pure _ (λ w h. h))

    link_memories-Stays :
        (ids : List ℕ) (links : Backlinks) → Stays v trip (link_memories v codec ids links)
    unfolding link_memories
    link_memories-Stays [] links = Runs-pure links (λ w h. h)
    link_memories-Stays (id ∷ ids) links =
        Runs-bind (Keeps-Runs (Keeps-call v (select_body id))) (λ _.
          Runs-bind (Runs-gets (λ w. map_get w.device.bodies id)) (λ body.
            Runs-bind (link_body-Stays id body links) (λ more. link_memories-Stays ids more)))

    memory_backlinks-Stays :
        (entries : List Entry) → Stays v trip (memory_backlinks v codec entries)
    unfolding memory_backlinks
    memory_backlinks-Stays entries =
        Runs-bind (reachable_ids-Stays kind_memory entries) (λ ids. link_memories-Stays ids [])

  module _ (texts : Texts) where
    chunk_ref-Stays : (c : Chunk) (position : ℕ) → Stays v trip (chunk_ref v texts c position)
    unfolding chunk_ref
    chunk_ref-Stays c position =
        Runs-bind (Runs-forget _ (Runs-some_or unwritable (v.marshal_chunk c))) (λ body.
          Runs-bind
            (Keeps-Runs (Keeps-asked (of_vault (hash_body body)) (λ calls. v.on_hash calls body)))
            (λ cid. Runs-pure _ (λ w h. h)))

    chunk_refs-Stays :
        (position : ℕ) (cs : List Chunk) → Stays v trip (chunk_refs v texts position cs)
    unfolding chunk_refs
    chunk_refs-Stays position [] = Runs-pure [] (λ w h. h)
    chunk_refs-Stays position (c ∷ cs) =
        Runs-bind (chunk_ref-Stays c position)
          (λ ref. Runs-bind (chunk_refs-Stays (suc position) cs) (λ refs. Runs-pure _ (λ w h. h)))

    held_head-Stays : (id : ℕ) → Stays v trip (held_head v texts id)
    unfolding held_head
    held_head-Stays id = Runs-bind (Keeps-Runs (Keeps-call v (select_head id))) (λ _. Runs-gets _)

    -- A head that may be written, in its form as JSON.
    abbrev IsReady : Session × List ℕ × ℕ → Type 0
    IsReady (s, head, expect) =
        (v.marshal_session s ≡ some head) × (session_validate v.trim_space s ≡ none)

    over-IsReady :
        (s : Session) (head : List ℕ) (existing : Option (List ℕ))
        → v.marshal_session s ≡ some head
        → session_validate v.trim_space s ≡ none
        → Runs
            (Holds v trip)
            (over v texts s head existing)
            (λ next w. IsReady next × Holds v trip w)
            (λ _ w. Holds v trip w)
    unfolding over
    over-IsReady s head none e valid = Runs-pure _ (λ w h. ((e, valid), h))
    over-IsReady s head (some existing) e valid =
        Runs-bind (Runs-forget _ (Runs-some_or unreadable (v.unmarshal_session existing)))
          (λ previous.
            Runs-bind
              (Runs-some_or unwritable
                (v.marshal_session (record s { version = suc previous.version })))
              (λ bytes. Runs-given (λ written.
                Runs-pure _ (λ w h. ((written, later-valid s previous.version valid), h)))))

    embed_head-Stays : (embed : Bool) (s : Session) → Stays v trip (embed_head v texts embed s)
    unfolding embed_head
    embed_head-Stays false s = Runs-pure s (λ w h. h)
    embed_head-Stays true s =
        Runs-bind
          (Keeps-Runs (
            Keeps-asked (of_vault (embed_text (index_text s)))
              (λ calls. v.on_embed calls (index_text s))))
          (λ vector.
            Runs-bind (Keeps-Runs (Keeps-call v (put_vector s.id vector)))
              (λ _. Runs-pure s (λ w h. h)))

    write_head-Stays :
        (embed : Bool) (next : Session × List ℕ × ℕ)
        → IsReady next
        → Stays v trip (write_head v texts embed next)
    unfolding write_head
    write_head-Stays embed (s, head, expect) (e, valid) =
        Runs-bind
          (Runs-put_head v s head expect
            (λ rows after all put. put_keeps v trip s head expect rows after e valid all put))
          (λ _.
            Runs-bind (Keeps-Runs (Keeps-call v (put_ranking s.id)))
              (λ _. embed_head-Stays embed s))

    store_rebuilt_head-Stays :
        (s : Session) (embed : Bool)
        → session_validate v.trim_space s ≡ none
        → Stays v trip (store_rebuilt_head v texts s embed)
    unfolding store_rebuilt_head
    store_rebuilt_head-Stays session embed valid =
        let s = if embed then record session { embedding = v.model } else session in
        Runs-bind (Runs-some_or unwritable (v.marshal_session s)) (λ head. Runs-given (λ e.
          Runs-bind (held_head-Stays s.id) (λ existing.
            Runs-bind (over-IsReady s head existing e (embedded-valid embed session valid))
              (λ next. Runs-given (λ ready. write_head-Stays embed next ready)))))

    settle_head-Stays :
        (req : RebuildRequest) (built : RebuiltHead) (held : Option (List ℕ))
        → session_validate v.trim_space built.session ≡ none
        → Stays v trip (settle_head v texts req built held)
    unfolding settle_head
    settle_head-Stays req built (some head) valid = Runs-pure _ (λ w h. h)
    settle_head-Stays req built none valid =
        Runs-bind (store_rebuilt_head-Stays built.session req.embed valid)
          (λ s. Runs-pure _ (λ w h. h))

    finish_head-Stays :
        (req : RebuildRequest) (id : ℕ) (cs : List Chunk) (backlinks : List ℕ)
        (refs : List ChunkRef)
        → Stays v trip (finish_head v texts req id cs backlinks refs)
    unfolding finish_head kept_head
    finish_head-Stays req id cs backlinks refs =
        let facts = observe_transcript v.marshal_chunk cs in
        Runs-bind (Runs-gets (λ w. v.env.now w.calls)) (λ now.
          let s = draft_head texts now id cs refs facts backlinks in
          let built : RebuiltHead = record {
            session = s;
            origins = draft_origins s facts;
            chunks = length cs;
            messages = facts.messages;
            existing = false;
          } in
          Runs-bind (Runs-check_valid (session_validate v.trim_space s)) (λ _. Runs-given (λ valid.
            Runs-bind {f = settle_head v texts req built}
              (Runs-if req.overwrite (Runs-pure none (λ w h. h)) (held_head-Stays id))
              (λ held. settle_head-Stays req built held valid))))

    rebuild_head-Stays :
        (id : ℕ) (cs : List Chunk) (backlinks : List ℕ) (req : RebuildRequest)
        → Stays v trip (rebuild_head v texts id cs backlinks req)
    unfolding rebuild_head
    rebuild_head-Stays id [] backlinks req = record { at = λ w h. h }
    rebuild_head-Stays id (c ∷ cs) backlinks req =
        Runs-bind (chunk_refs-Stays 0 (c ∷ cs))
          (λ refs. finish_head-Stays req id (c ∷ cs) backlinks refs)

  module _ (codec : Codec) (texts : Texts) (read_chunk : ℕ → Option Chunk) where
    rebuild_each-Stays :
        (req : RebuildRequest) (g : Gathered) (links : Backlinks) (ids : List ℕ)
        (report : RebuildReport)
        → Stays v trip (rebuild_each v codec texts read_chunk req g links ids report)
    unfolding rebuild_each
    rebuild_each-Stays req g links [] report = Runs-pure report (λ w h. h)
    rebuild_each-Stays req g links (id ∷ ids) report =
        Runs-bind (rebuild_head-Stays texts id _ _ req)
          (λ built. rebuild_each-Stays req g links ids _)

    pub rebuild_sessions-Stays :
        (req : RebuildRequest) (entries : List Entry)
        → Stays v trip (rebuild_sessions v codec texts read_chunk req entries)
    unfolding rebuild_sessions
    rebuild_sessions-Stays req entries = Runs-bind (reachable_ids-Stays kind_chunk entries) (λ ids.
        Runs-bind (memory_backlinks-Stays codec entries)
          (λ links. rebuild_each-Stays req _ links _ _))
