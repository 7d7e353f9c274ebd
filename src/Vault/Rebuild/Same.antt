-- ===== src/Vault/Rebuild/Same.antt =====
-- A head that is rebuilt has the chunks of the head that was lost.
use mnemosia.Prelude.{
  ℕ, suc, ◌≡◌, refl, sym, ap, ◌∙◌, subst, List, [], ◌∷◌, Option, none, some, String, length, arith,
}
use mnemosia.Prelude.Exec.{ok, Post, Runs, Runs-bind, Runs-given, Runs-pure}
use mnemosia.Service.{World, VaultCall, Calls, Call, of_vault, hash_body, ask, act, statement}
use mnemosia.Record.Chunk.{Chunk, ChunkRef}
use mnemosia.Local.Sessions.{HeadRows}
use mnemosia.Vault.Desk.{Desk, Error, Vault, raise, call, some_or, unwritable}
use mnemosia.Vault.Desk.Keeps.{OnHeads}
use mnemosia.Vault.Request.{first_id, last_id}
use mnemosia.Vault.Session.Save.Appends.{RoundTrip}
use mnemosia.Vault.Rebuild.Head.{chunk_ref, chunk_refs}
use mnemosia.Vault.Rebuild.Facts.{Texts}

-- No call is refused, and what a head is written as reads back; a content id depends on the body.
pub record Answers (v : Vault) (cid_of : List ℕ → String) : Type 0 where
  pub acts : (calls : Calls) (c : Call) → v.env.on_act calls c ≡ none
  pub hashes : (calls : Calls) (body : List ℕ) → v.on_hash calls body ≡ ok (cid_of body)
  pub reads : RoundTrip v

-- What a head holds of a chunk at a place, as `writeChunk` makes it.
pub record IsRefOf (v : Vault) (cid_of : List ℕ → String) (place : ℕ) (c : Chunk) (ref : ChunkRef)
    : Type 0 where
  pub body : List ℕ
  pub marshals : v.marshal_chunk c ≡ some body
  pub is : ref ≡ record {
    id = c.id;
    seq = place;
    first = first_id c.messages;
    last = last_id "" c.messages;
    n = length c.messages;
    bytes = length body;
    cid = cid_of body;
  }

pub data AreRefsOf (v : Vault) (cid_of : List ℕ → String)
    : ℕ → List Chunk → List ChunkRef → Type 0 where
  no_chunk : (place : ℕ) → AreRefsOf v cid_of place [] []
  one_chunk :
      (place : ℕ) (c : Chunk) (ref : ChunkRef) (cs : List Chunk) (refs : List ChunkRef)
      → IsRefOf v cid_of place c ref
      → AreRefsOf v cid_of (suc place) cs refs
      → AreRefsOf v cid_of place (c ∷ cs) (ref ∷ refs)

abbrev pub Never : Error → World Desk → Type 0
Never e w = ⊥

module _ (v : Vault) (cid_of : List ℕ → String) (answers : Answers v cid_of) where
  called :
      (c : VaultCall) (w : World Desk)
      → call v c w ≡ (ok tt, record w { calls = of_vault c ∷ w.calls })
  unfolding call raise act statement
  called c w = ground (arith, answers.acts w.calls (of_vault c))

  hashed :
      (body : List ℕ) (w : World Desk)
      → raise (ask (of_vault (hash_body body)) (λ calls. v.on_hash calls body)) w
        ≡ (ok (cid_of body), record w { calls = of_vault (hash_body body) ∷ w.calls })
  unfolding raise ask
  hashed body w = ground (arith, answers.hashes w.calls body)

  module _ {P : HeadRows → Type 0} where
    pub call-Returns : (c : VaultCall) → Runs (OnHeads P) (call v c) (λ _ w. OnHeads P w) Never
    call-Returns c = record {
      at = λ w h.
          subst (Post (λ _ w. OnHeads P w) Never) (sym (called c w)) (record { holds = h.holds });
    }

    hash-Returns :
        (body : List ℕ)
        → Runs
            (OnHeads P)
            (raise (ask (of_vault (hash_body body)) (λ calls. v.on_hash calls body)))
            (λ cid w. (cid ≡ cid_of body) × OnHeads P w)
            Never
    hash-Returns body = record {
      at = λ w h.
          subst (Post (λ cid w. (cid ≡ cid_of body) × OnHeads P w) Never) (sym (hashed body w))
            (refl, record { holds = h.holds });
    }

    pub some-Returns :
        {A : Type 0} (e : Error) (o : Option A) (a : A)
        → o ≡ some a
        → Runs (OnHeads P) (some_or e o) (λ b w. (b ≡ a) × OnHeads P w) Never
    unfolding some_or
    some-Returns e o a h = record { at = λ w k. ground (arith, h, k) }

    chunk_ref-Returns :
        (texts : Texts) (c : Chunk) (place : ℕ) (ref : ChunkRef)
        → IsRefOf v cid_of place c ref
        → Runs (OnHeads P) (chunk_ref v texts c place) (λ r w. (r ≡ ref) × OnHeads P w) Never
    unfolding chunk_ref
    chunk_ref-Returns texts c place ref h =
        Runs-bind (some-Returns unwritable (v.marshal_chunk c) h.body h.marshals) λ body.
          Runs-given λ same_body. Runs-bind (hash-Returns body) λ cid. Runs-given λ same_cid.
            Runs-pure _ λ w k. (
              (λ i. record {
                id = c.id;
                seq = place;
                first = first_id c.messages;
                last = last_id "" c.messages;
                n = length c.messages;
                bytes = length (same_body i);
                cid = (same_cid ∙ ap cid_of same_body) i;
              })
                  ∙ sym h.is,
              k,
            )

    pub chunk_refs-Returns :
        (texts : Texts) (place : ℕ) (cs : List Chunk) (refs : List ChunkRef)
        → AreRefsOf v cid_of place cs refs
        → Runs (OnHeads P) (chunk_refs v texts place cs) (λ r w. (r ≡ refs) × OnHeads P w) Never
    unfolding chunk_refs
    chunk_refs-Returns texts place _ _ (no_chunk _) = Runs-pure [] λ w k. (refl, k)
    chunk_refs-Returns texts place _ _ (one_chunk _ c ref cs refs one rest) =
        Runs-bind (chunk_ref-Returns texts c place ref one) λ r. Runs-given λ same.
          Runs-bind (chunk_refs-Returns texts (suc place) cs refs rest)
            λ rs. Runs-given λ sames. Runs-pure _ λ w k. ((λ i. same i ∷ sames i), k)
