-- ===== src/Vault/Rebuild/Valid.antt =====
-- A rebuilt head is well formed, if its title is.
use mnemosia.Prelude.{
  ℕ, suc, ◌≡◌, ◌≢◌, refl, ap, ltb, nat_eq, true, false, ◌==◌, string_keys, List, ◌∷◌, none, String,
  contains, All, arith,
}
use Prim.Native.String.{len}
use mnemosia.Record.Chunk.{Chunk, ChunkRef, chunk_validate, message_schema}
use mnemosia.Record.Message.{is_blank}
use mnemosia.Record.Session.{
  session_validate, fields_validate, tags_validate, chunks_validate, is_session_kind,
  max_title_bytes,
}
use mnemosia.Vault.Desk.{Vault}
use mnemosia.Vault.Rebuild.Facts.{Texts, TranscriptFacts, synthesise_title}
use mnemosia.Vault.Rebuild.Head.{draft_head}
use mnemosia.Vault.Rebuild.Same.{AreRefsOf, no_chunk, one_chunk}

abbrev pub AreValid : (String → String) → List Chunk → Type 0
AreValid trim_space cs = All (λ c. chunk_validate trim_space c ≡ none) cs

valid_fields :
    (trim_space : String → String) (c : Chunk)
    → chunk_validate trim_space c ≡ none
    → (nat_eq c.id 0 ≡ false)
      × ((c.schema == message_schema) ≡ true)
      × (nat_eq c.schema_version 0 ≡ false)
unfolding chunk_validate
valid_fields trim_space c h = (ground arith, ground arith, ground arith)

-- The title is no blank and not too long.
pub record Titled (trim_space : String → String) (title : String) : Type 0 where
  pub worded : is_blank trim_space title ≡ false
  pub short : ltb max_title_bytes (len title) ≡ false

module _ (v : Vault) (cid_of : List ℕ → String) where
  refs_valid :
      (place : ℕ) (cs : List Chunk) (refs : List ChunkRef)
      → AreRefsOf v cid_of place cs refs
      → AreValid v.trim_space cs
      → chunks_validate place refs ≡ none
  unfolding chunks_validate
  refs_valid place _ _ (no_chunk _) h = refl
  refs_valid place _ _ (one_chunk _ c ref cs refs one rest) (valid, valids) = ground (
    arith,
    ap (λ (r : ChunkRef). r.id) one.is,
    ap (λ (r : ChunkRef). r.seq) one.is,
    (valid_fields v.trim_space c valid).0,
    refs_valid (suc place) cs refs rest valids,
  )

  pub draft_head-valid :
      (texts : Texts) (now id : ℕ) (c : Chunk) (cs : List Chunk) (refs : List ChunkRef)
      (facts : TranscriptFacts) (backlinks : List ℕ)
      → id ≢ 0
      → AreRefsOf v cid_of 0 (c ∷ cs) refs
      → AreValid v.trim_space (c ∷ cs)
      → Titled v.trim_space (synthesise_title texts (c ∷ cs) id)
      → session_validate v.trim_space (draft_head texts now id (c ∷ cs) refs facts backlinks) ≡ none
  unfolding session_validate fields_validate tags_validate is_session_kind draft_head contains
  draft_head-valid texts now id c cs refs facts backlinks h of (valid, valids) titled = ground (
    arith,
    (valid_fields v.trim_space c valid).1,
    (valid_fields v.trim_space c valid).2,
    titled.worded,
    titled.short,
    refs_valid 0 (c ∷ cs) refs of (valid, valids),
  )
