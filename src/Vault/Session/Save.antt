-- ===== src/Vault/Session/Save.antt =====
-- vault/session.go, `SaveSession`: the whole method.
pub mod Appends
use mnemosia.Prelude.{
  ℕ, nat_eq, Bool, true, false, ◌&&◌, not, List, [], ◌∷◌, Option, none, some, String, if◌then◌else◌,
}
use mnemosia.Prelude.Exec.{Exec, pure, fail, gets, ◌>>=◌, ◌>>◌}
use mnemosia.Service.{World, Env, embed_text, await_first_write, of_vault, ask}
use mnemosia.Store.{Flush}
use mnemosia.Packer.{Delivery}
use mnemosia.Packer as Packer
use mnemosia.Packer.Cadence.{manual}
use mnemosia.Record.Message.{Message}
use mnemosia.Record.Chunk.{chunk_target_bytes, split_messages, is_empty}
use mnemosia.Record.Session.{Session, session_validate, index_text}
use mnemosia.Vault.Desk.{
  Desk, Error, unmeasured, Vault, Method, raise, on_packer, some_or, check_valid, call,
}
use mnemosia.Vault.Request.{SaveSessionRequest, apply_head_updates, validate_append}
use mnemosia.Vault.Session.{
  SaveSessionResult, Saving, settle, written_by, open_session, write_chunks, store_head,
}
use mnemosia.Vault.Session.Edges.{adopt_child}

abbrev pub start_saving : Session → Saving
start_saving s = record { session = s; chunks = []; messages = 0; bytes = 0; owed = [] }

module _ (v : Vault) where
  -- `Vault.Flush`
  unfoldable pub flush_all : Method (Option Delivery)
  flush_all = do call v await_first_write; on_packer (Packer.flush v.env v.packer manual)

  unfoldable pub adopt_new : ℕ → Session → Option ℕ → Method Unit
  adopt_new from s none = pure tt
  adopt_new from s (some parent) = if nat_eq from 0 then adopt_child v parent s.id else pure tt

  result_of : Session → Saving → List String → Option Delivery → SaveSessionResult
  result_of s st owed flushed = record {
    id = s.id;
    version = s.version;
    chunks = st.chunks;
    messages = st.messages;
    bytes = st.bytes;
    on_network = is_empty owed;
    flushed = elim flushed [ none ↦ none | some d ↦ some d.flush ];
  }

  unfoldable pub finish_saving : SaveSessionRequest → Session → Saving → Method SaveSessionResult
  unfolding result_of
  finish_saving req s st =
      if req.durable && not (is_empty st.owed)
      then (do
        flushed ← flush_all
        pure (result_of s st (settle st.owed (written_by flushed)) flushed))
      else pure (result_of s st st.owed none)

  -- From the head with its new chunks on.
  unfoldable pub save_head : SaveSessionRequest → ℕ → Saving → Method SaveSessionResult
  unfolding adopt_new
  save_head req from st = do
    now ← gets (λ w. v.env.now w.calls)
    let s = apply_head_updates v.trim_space v.to_lower now st.session req
    check_valid (session_validate v.trim_space s)
    vector ←
        raise
          (ask (of_vault (embed_text (index_text s))) (λ calls. v.on_embed calls (index_text s)))
    store_head v s vector from
    adopt_new from s s.lineage.parent_session
    finish_saving req s st

  unfoldable pub save_session : SaveSessionRequest → Method SaveSessionResult
  save_session req = do
    (s, from) ← open_session v req
    check_valid (validate_append v.trim_space s req.messages)
    groups ← some_or unmeasured (split_messages v.message_bytes req.messages chunk_target_bytes)
    st ← write_chunks v (start_saving s) groups
    save_head req from st
