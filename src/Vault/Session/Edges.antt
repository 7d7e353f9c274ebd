-- ===== src/Vault/Session/Edges.antt =====
-- vault/session.go and vault/session_load.go: the edges that a head keeps to other records.
use mnemosia.Prelude.{
  ℕ, ◌∷◌, ◌++◌, nat_eq, List, [], Option, none, some, number_keys, contains, length, if◌then◌else◌,
}
use mnemosia.Prelude.Exec.{pure, ◌>>=◌}
use mnemosia.Record.Session.{Session}
use mnemosia.Vault.Desk.{Vault, Method, read_session, session}
use mnemosia.Vault.Session.{revise_head}

abbrev pub with_children : Session → List ℕ → Session
with_children s children = record s { lineage = record s.lineage { children = children } }

unfoldable pub without_child : ℕ → List ℕ → List ℕ
without_child child [] = []
without_child child (c ∷ rest) =
    let kept = without_child child rest in if nat_eq c child then kept else c ∷ kept

module _ (v : Vault) where
  unfoldable pub adopt_into : ℕ → Session → Method Unit
  adopt_into child s =
      if contains s.lineage.children child
      then pure tt
      else revise_head v (with_children s (s.lineage.children ++ child ∷ []))

  unfoldable pub adopt_child : ℕ → ℕ → Method Unit
  unfolding adopt_into
  adopt_child parent child = do s ← session v parent; adopt_into child s

  unfoldable pub disown_from : ℕ → Option Session → Method Unit
  disown_from child none = pure tt
  disown_from child (some s) =
      let kept = without_child child s.lineage.children in
      if nat_eq (length kept) (length s.lineage.children)
      then pure tt
      else revise_head v (with_children s kept)

  unfoldable pub disown_child : ℕ → ℕ → Method Unit
  unfolding disown_from
  disown_child parent child = do found ← read_session v parent; disown_from child found

  unfoldable pub link_into : ℕ → Session → Method Unit
  link_into memory s =
      if contains s.memories memory
      then pure tt
      else revise_head v (record s { memories = s.memories ++ memory ∷ [] })

  -- `LinkMemory`
  unfoldable pub link_memory : ℕ → ℕ → Method Unit
  unfolding link_into
  link_memory session_id memory = do s ← session v session_id; link_into memory s
