-- ===== src/Vault/Session/Forget.antt =====
-- vault/session.go, `ForgetSession`.
use mnemosia.Prelude.{ℕ, nat_eq, List, [], ◌∷◌, Option, none, some, if◌then◌else◌}
use mnemosia.Prelude.Exec.{pure, ◌>>=◌, ◌>>◌}
use mnemosia.Service.{remove_entry, remove_vector, forget_ranking, forget_body, delete_head}
use mnemosia.Record.Kind.{Kind}
use mnemosia.Record.Chunk.{ChunkRef}
use mnemosia.Local.Sessions.{forget_session_head}
use mnemosia.Vault.Desk.{Vault, Method, call, call_table, session}
use mnemosia.Vault.Session.Edges.{disown_child}

unfoldable pub without_body : ℕ → List (ℕ × (Kind × List ℕ)) → List (ℕ × (Kind × List ℕ))
without_body id [] = []
without_body id ((j, body) ∷ rest) =
    let kept = without_body id rest in if nat_eq j id then kept else (j, body) ∷ kept

module _ (v : Vault) where
  -- The catalog's entry is removed where there is one: `remove_entry` answers no error where there is none.
  unfoldable pub forget_chunks : List ChunkRef → Method Unit
  forget_chunks [] = pure tt
  forget_chunks (c ∷ rest) = do
    call_table v (forget_body c.id) (λ d. record d { bodies = without_body c.id d.bodies })
    call v (remove_entry c.id)
    forget_chunks rest

  unfoldable pub leave_parent : ℕ → Option ℕ → Method Unit
  leave_parent id none = pure tt
  leave_parent id (some parent) = disown_child v parent id

  unfoldable pub forget_session : ℕ → Method Unit
  unfolding leave_parent
  forget_session id = do
    s ← session v id
    forget_chunks s.chunks
    leave_parent id s.lineage.parent_session
    call v (forget_ranking id)
    call v (remove_vector id)
    call_table v (delete_head id) (λ d. record d { heads = forget_session_head id d.heads })
