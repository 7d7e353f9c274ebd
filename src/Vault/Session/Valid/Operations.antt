-- ===== src/Vault/Session/Valid/Operations.antt =====
-- The operations on conversations keep the stored heads well formed.
use mnemosia.Prelude.{
  ℕ, ◌≡◌, refl, sym, ap, ◌∙◌, nat_eq, Bool, true, false, List, [], ◌∷◌, Option, none, some,
  string_keys, number_keys, arith, if◌then◌else◌,
}
use mnemosia.Prelude.Exec.{
  Runs-bind, Keeps-Runs, Runs-Keeps, Runs-pure, Runs-gets, Runs-forget, Runs-given, Runs-if,
}
use mnemosia.Service.{
  World, embed_text, put_vector, put_ranking, of_vault, remove_entry, remove_vector, forget_ranking,
  delete_head,
}
use mnemosia.Record.Session.{Session, session_validate, index_text}
use mnemosia.Local.Sessions.{HeadRow, HeadRows, row_at, forget_session_head}
use mnemosia.Local.Sessions.Rows.{row_at-forget_session_head}
use mnemosia.Vault.Desk.{Desk, Vault, unwritable, unmeasured}
use mnemosia.Vault.Desk.Keeps.{
  Found, absent, present, Runs-put_head, Runs-some_or, Runs-check_valid, Keeps-asked, Keeps-call,
  Keeps-call_table, Runs-read_session,
}
use mnemosia.Manifest.Entry.{Entry}
use mnemosia.Vault.Rebuild.{Codec, rebuild_sessions}
use mnemosia.Vault.Rebuild.Facts.{Texts}
use mnemosia.Vault.Rebuild.Head.{RebuildRequest}
use mnemosia.Vault.Session.Valid.Rebuilds.{rebuild_sessions-Stays}
use mnemosia.Record.Chunk.{Chunk, ChunkRef, split_messages, chunk_target_bytes}
use mnemosia.Vault.Request.{SaveSessionRequest, apply_head_updates, validate_append}
use mnemosia.Vault.Session.{Saving, new_session, open_existing, open_session, store_head}
use mnemosia.Vault.Session.Chunks.{Keeps-fresh_id, Runs-write_chunks}
use mnemosia.Vault.Session.Save.{start_saving, adopt_new, save_head, save_session}
use mnemosia.Vault.Session.Forget.{forget_chunks, leave_parent, forget_session}
use mnemosia.Vault.Session.Edges.{
  adopt_child, adopt_into, link_memory, link_into, disown_from, disown_child,
}
use mnemosia.Vault.Session.Save.Appends.{RoundTrip, Runs-finish}
use mnemosia.Vault.Session.Valid.{
  AllWellFormed, Stays, read_and, revise_head-Stays, read-valid, or_session, put_keeps,
}

module _ (v : Vault) (trip : RoundTrip v) where
  adopt_child-Stays : (parent child : ℕ) → Stays v trip (adopt_child v parent child)
  unfolding adopt_child adopt_into
  adopt_child-Stays parent child = read_and v trip parent (adopt_into v child) (λ s valid.
      Runs-if _ (Runs-pure tt (λ w h. h)) (revise_head-Stays v trip s _ s.memories valid))

  link_memory-Stays : (id memory : ℕ) → Stays v trip (link_memory v id memory)
  unfolding link_memory link_into
  link_memory-Stays id memory = read_and v trip id (link_into v memory) (λ s valid.
      Runs-if _ (Runs-pure tt (λ w h. h)) (revise_head-Stays v trip s s.lineage.children _ valid))

  disown_from-Stays :
      (child : ℕ) (found : Option Session)
      → ((s : Session) → found ≡ some s → session_validate v.trim_space s ≡ none)
      → Stays v trip (disown_from v child found)
  unfolding disown_from
  disown_from-Stays child none k = Runs-pure tt (λ w h. h)
  disown_from-Stays child (some s) k =
      Runs-if _ (Runs-pure tt (λ w h. h)) (revise_head-Stays v trip s _ s.memories (k s refl))

  reading_valid :
      (id : ℕ) (rows : HeadRows) (found : Option Session)
      → AllWellFormed v rows
      → Found v id rows found
      → (s : Session) → found ≡ some s
      → session_validate v.trim_space s ≡ none
  unfolding or_session
  reading_valid id rows _ all (absent e) s h = ground arith
  reading_valid id rows _ all (present a r) s h =
      ap (λ s. session_validate v.trim_space s) (ap (or_session v trip s) (sym h))
      ∙ read-valid v trip id a rows all r

  disown_child-Stays : (parent child : ℕ) → Stays v trip (disown_child v parent child)
  unfolding disown_child
  disown_child-Stays parent child = Runs-bind (Runs-read_session v parent) (λ found. record {
    at = λ w (h, f).
        (disown_from-Stays child found (reading_valid parent w.device.heads found h.holds f)).at w
          h;
  })

  store_head-Stays :
      (s : Session) (vector : List ℕ) (from : ℕ)
      → session_validate v.trim_space s ≡ none
      → Stays v trip (store_head v s vector from)
  unfolding store_head
  store_head-Stays s vector from valid =
      Runs-bind (Runs-some_or unwritable (v.marshal_session s)) (λ head. Runs-given (λ e.
        Runs-bind
          (Runs-put_head v s head from
            (λ rows after all put. put_keeps v trip s head from rows after e valid all put))
          (λ _.
            Runs-bind (Keeps-Runs (Keeps-call v (put_vector s.id vector)))
              (λ _. Keeps-Runs (Keeps-call v (put_ranking s.id))))))

  adopt_new-Stays :
      (from : ℕ) (s : Session) (parent : Option ℕ) → Stays v trip (adopt_new v from s parent)
  unfolding adopt_new
  adopt_new-Stays from s none = Runs-pure tt (λ w h. h)
  adopt_new-Stays from s (some p) = Runs-if _ (adopt_child-Stays p s.id) (Runs-pure tt (λ w h. h))

  save_head-Stays :
      (req : SaveSessionRequest) (from : ℕ) (st : Saving) → Stays v trip (save_head v req from st)
  unfolding save_head
  save_head-Stays req from st = Runs-bind (Runs-gets (λ w. v.env.now w.calls)) (λ now.
      let s = apply_head_updates v.trim_space v.to_lower now st.session req in
      Runs-bind (Runs-check_valid (session_validate v.trim_space s)) (λ _. Runs-given (λ valid.
        Runs-bind
          (Keeps-Runs (
            Keeps-asked (of_vault (embed_text (index_text s)))
              (λ calls. v.on_embed calls (index_text s))))
          (λ vector. Runs-bind (store_head-Stays s vector from valid) (λ _.
            Runs-bind (adopt_new-Stays from s s.lineage.parent_session)
              (λ _. Runs-forget _ (Runs-finish v req s st)))))))

  open_session-Stays : (req : SaveSessionRequest) → Stays v trip (open_session v req)
  unfolding open_session open_existing
  open_session-Stays req =
      Runs-if _ (read_and v trip req.id _ (λ s valid. Runs-pure _ (λ w h. h))) (
        Runs-bind (Keeps-Runs (Keeps-fresh_id v)) (λ id.
          Runs-bind (Runs-gets (λ w. v.env.now w.calls))
            (λ now. Runs-pure (new_session v id now req, 0) (λ w h. h))))

  save_session-Stays : (req : SaveSessionRequest) → Stays v trip (save_session v req)
  unfolding save_session
  save_session-Stays req = Runs-bind (open_session-Stays req) (λ (s, from).
      Runs-bind (Runs-forget _ (Runs-check_valid (validate_append v.trim_space s req.messages)))
        (λ _.
          Runs-bind
            (Runs-forget _ (
              Runs-some_or unmeasured
                (split_messages v.message_bytes req.messages chunk_target_bytes)))
            (λ groups.
              Runs-bind (Runs-forget _ (Runs-write_chunks v (start_saving s) groups))
                (λ st. save_head-Stays req from st))))

  forgotten :
      (id : ℕ) (rows : HeadRows)
      → AllWellFormed v rows
      → AllWellFormed v (forget_session_head id rows)
  forgotten id rows all = record {
    each = λ j row found. all.each j row (
        kept (nat_eq id j) (row_at j rows) row
          (sym (row_at-forget_session_head id j rows) ∙ found));
  }
    where
      kept :
          (b : Bool) (o : Option HeadRow) (row : HeadRow)
          → (if b then none else o) ≡ some row
          → o ≡ some row
      kept true o row h = ground (arith, h)
      kept false o row h = h

  forget_chunks-Stays : (chunks : List ChunkRef) → Stays v trip (forget_chunks v chunks)
  unfolding forget_chunks
  forget_chunks-Stays [] = Runs-pure tt (λ w h. h)
  forget_chunks-Stays (c ∷ rest) = Runs-bind (Keeps-Runs (Keeps-call_table v _ _ (λ d h. h))) (λ _.
      Runs-bind (Keeps-Runs (Keeps-call v (remove_entry c.id))) (λ _. forget_chunks-Stays rest))

  leave_parent-Stays : (id : ℕ) (parent : Option ℕ) → Stays v trip (leave_parent v id parent)
  unfolding leave_parent
  leave_parent-Stays id none = Runs-pure tt (λ w h. h)
  leave_parent-Stays id (some p) = disown_child-Stays p id

  forget_session-Stays : (id : ℕ) → Stays v trip (forget_session v id)
  unfolding forget_session
  forget_session-Stays id = read_and v trip id _ (λ s valid.
      Runs-bind (forget_chunks-Stays s.chunks) (λ _.
        Runs-bind (leave_parent-Stays id s.lineage.parent_session) (λ _.
          Runs-bind (Keeps-Runs (Keeps-call v (forget_ranking id))) (λ _.
            Runs-bind (Keeps-Runs (Keeps-call v (remove_vector id))) (λ _.
              Keeps-Runs
                (Keeps-call_table v (delete_head id) _ (λ d h. forgotten id d.heads h)))))))

-- What a caller may ask of a vault's conversations. A rebuild has the catalog's entries, and what a
-- chunk's id reads as.
pub data Operation : Type 0 where
  saves : SaveSessionRequest → Operation
  links : ℕ → ℕ → Operation
  forgets : ℕ → Operation
  rebuilds : Codec → Texts → (ℕ → Option Chunk) → RebuildRequest → List Entry → Operation

-- The device after an operation, whether it returned or failed.
unfoldable pub performed : Vault → Operation → World Desk → World Desk
performed v (saves req) w = (save_session v req w).1
performed v (links session_id memory) w = (link_memory v session_id memory w).1
performed v (forgets id) w = (forget_session v id w).1
performed v (rebuilds codec texts read_chunk req entries) w =
    (rebuild_sessions v codec texts read_chunk req entries w).1

-- Whether it returns or fails, a save, a link of a memory, a forget of a conversation, or a rebuild of
-- the conversations, on a vault that reads back the heads it writes, keeps every stored head well formed: it reads as a session of its row's key and version that `Validate` accepts,
-- whose chunks are sequenced where they stand.
pub performed-AllWellFormed :
    (v : Vault)
    → RoundTrip v
    → (operation : Operation) (w : World Desk) → AllWellFormed v w.device.heads
    → AllWellFormed v (performed v operation w).device.heads
unfolding performed
performed-AllWellFormed v trip (saves req) w all =
    ((Runs-Keeps (save_session-Stays v trip req)).at w (record { holds = all })).holds
performed-AllWellFormed v trip (links session_id memory) w all =
    ((Runs-Keeps (link_memory-Stays v trip session_id memory)).at w (record { holds = all })).holds
performed-AllWellFormed v trip (forgets id) w all =
    ((Runs-Keeps (forget_session-Stays v trip id)).at w (record { holds = all })).holds
performed-AllWellFormed v trip (rebuilds codec texts read_chunk req entries) w all =
    ((Runs-Keeps (rebuild_sessions-Stays v trip codec texts read_chunk req entries)).at w
      (record { holds = all })).holds
