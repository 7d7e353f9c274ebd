-- ===== src/Vault/Desk.antt =====
-- What the operations on conversations stand on: the device's tables, the packer, and the calls of
-- the rest of the vault.
pub mod Keeps
use mnemosia.Prelude.{
  ℕ, suc, List, [], ◌∷◌, Option, none, some, String, map_put, map_get, number_keys,
}
use mnemosia.Prelude.Exec.{Result, ok, err, Exec, pure, fail, gets, modify, ◌>>=◌, ◌>>◌}
use mnemosia.Service
use mnemosia.Service.{
  World, Env, Calls, VaultCall, of_vault, put_body, select_head, upsert_head, statement, act, ask,
}
use mnemosia.Record.Kind.{Kind}
use mnemosia.Record.Invalid.{Invalid}
use mnemosia.Record.Message.{Message}
use mnemosia.Record.Chunk.{Chunk}
use mnemosia.Record.Session.{Session, Embedding}
use mnemosia.Seal.Frame as Frame
use mnemosia.Local.Sessions.{HeadRows, put_session_head, get_session_head, forget_session_head}
use mnemosia.Packer
use mnemosia.Packer.{Packer}

-- The body of a record, and the two numbers of `SessionStats` that the heads and chunks move.
pub record Desk : Type 0 where
  pub packer : Packer.Device
  pub bodies : List (ℕ × (Kind × List ℕ))
  pub heads : HeadRows
  pub head_reads : ℕ

-- An error of a service, of a check, of a frame, or of the session's own.
pub data Error : Type 0 where
  service : Service.Error → Error
  invalid : Invalid → Error
  unframed : Frame.Error → Error
  stale_head no_session : ℕ → Error
  no_body no_chunks unreadable_memory : ℕ → Error
  unwritable unreadable unmeasured : Error

-- What the vault has been given: the services, the texts of the standard library, JSON, the model's
-- name, and the packer's settings.
pub record Vault : Type 0 where
  pub env : Env
  pub on_new_id : Calls → Result Service.Error ℕ
  pub on_hash : Calls → List ℕ → Result Service.Error String
  pub on_seal : Calls → List ℕ → Result Service.Error (List ℕ)
  pub on_embed : Calls → String → Result Service.Error (List ℕ)
  pub trim_space : String → String
  pub to_lower : String → String
  pub message_bytes : Message → Option ℕ
  pub marshal_chunk : Chunk → Option (List ℕ)
  pub marshal_session : Session → Option (List ℕ)
  pub unmarshal_session : List ℕ → Option Session
  pub model : Embedding
  pub packer : Packer

abbrev pub Method : Type 0 → Type 0
Method A = Exec (World Desk) Error A

module _ {A : Type 0} where
  pub raised : Result Service.Error A × World Desk → Result Error A × World Desk
  raised (ok a, w) = (ok a, w)
  raised (err e, w) = (err (service e), w)

  unfoldable pub raise : Exec (World Desk) Service.Error A → Method A
  unfolding raised
  raise m w = raised (m w)

  pub put_back :
      World Desk → Result Service.Error A × World Packer.Device → Result Error A × World Desk
  put_back w (ok a, p) =
      (ok a, record { device = record w.device { packer = p.device }; calls = p.calls })
  put_back w (err e, p) =
      (err (service e), record { device = record w.device { packer = p.device }; calls = p.calls })

  -- A method of the packer.
  unfoldable pub on_packer : Exec (World Packer.Device) Service.Error A → Method A
  unfolding put_back
  on_packer m w = put_back w (m (record { device = w.device.packer; calls = w.calls }))

  unfoldable pub some_or : Error → Option A → Method A
  some_or e none = fail e
  some_or e (some a) = pure a

unfoldable pub check_valid : Option Invalid → Method Unit
check_valid none = pure tt
check_valid (some e) = fail (invalid e)

module _ (v : Vault) where
  unfoldable pub call : VaultCall → Method Unit
  call c = raise (act v.env (of_vault c))

  unfoldable pub call_table : VaultCall → (Desk → Desk) → Method Unit
  call_table c f = raise (statement v.env (of_vault c) f)

  -- `PutBody`; a body that is there keeps its kind.
  kept_kind : Kind → Option (Kind × List ℕ) → Kind
  kept_kind kind none = kind
  kept_kind kind (some (old, body)) = old

  unfoldable pub store_body : ℕ → Kind → List ℕ → Method Unit
  unfolding kept_kind
  store_body id kind body =
      call_table (put_body id) (λ d. record d {
        bodies = map_put d.bodies id (kept_kind kind (map_get d.bodies id), body);
      })

  unfoldable pub set_heads : ℕ → Option HeadRows → Method Unit
  set_heads id none = fail (stale_head id)
  set_heads id (some heads) = modify (λ w. record w { device = record w.device { heads = heads } })

  -- `PutSessionHead`
  unfoldable pub put_head : Session → List ℕ → ℕ → Method Unit
  unfolding set_heads
  put_head s head expect = do
    call (upsert_head s.id)
    after ← gets (λ w. put_session_head s head expect w.device.heads)
    set_heads s.id after

  read_bytes : Option (List ℕ) → Method (Option Session)
  read_bytes none = pure none
  read_bytes (some head) = do
    modify (λ w. record w { device = record w.device { head_reads = suc w.device.head_reads } })
    s ← some_or unreadable (v.unmarshal_session head)
    pure (some s)

  -- `Vault.session`; nothing is `local.ErrNotFound`.
  unfoldable pub read_session : ℕ → Method (Option Session)
  unfolding read_bytes
  read_session id = do
    call (select_head id)
    head ← gets (λ w. get_session_head id w.device.heads)
    read_bytes head

  -- `Vault.Session`
  unfoldable pub session : ℕ → Method Session
  session id = do found ← read_session id; some_or (no_session id) found
