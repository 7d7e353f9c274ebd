-- ===== src/Vault/Session/Chunks.antt =====
-- What the chunks of one save are, and what they make of the head.
use mnemosia.Prelude.{
  ℕ, suc, ◌+◌, ◌≡◌, refl, sym, subst, ◌∙◌, List, [], ◌∷◌, ◌++◌, append-nil, append_assoc, Option,
  length, length-append, concat, arith,
}
use mnemosia.Prelude.Exec.{
  Result, ok, err, Runs, Keeps, Runs-bind, Keeps-Runs, Keeps-pure, Keeps-fail, Runs-pure,
  Runs-forget, Runs-given, Runs-to, pure, fail,
}
use mnemosia.Service.{new_id, hash_body, seal_body, of_vault}
use mnemosia.Packer.{Delivery}
use mnemosia.Record.Kind.{kind_chunk}
use mnemosia.Record.Message.{Message}
use mnemosia.Record.Chunk.{ChunkRef, chunk_validate}
use mnemosia.Record.Session.{Session, count_messages, sum_bytes}
use mnemosia.Seal.Frame as Frame
use mnemosia.Seal.Frame.{frame_record}
use mnemosia.Local.Sessions.{HeadRows}
use mnemosia.Vault.Desk.{unframed, unwritable, Vault, Method}
use mnemosia.Vault.Desk.Keeps.{
  OnHeads, Keeps-asked, Runs-some_or, Runs-check_valid, Keeps-store_body, Keeps-on_packer,
}
use mnemosia.Vault.Request.{first_id, last_id}
use mnemosia.Vault.Session.{Saving, saved_chunk, chunk_of, fresh_id, write_chunk, write_chunks}

-- What a head says of the chunk at a place that holds these messages.
pub record IsRef (place : ℕ) (messages : List Message) (ref : ChunkRef) : Type 0 where
  pub seq : ref.seq ≡ place
  pub first : ref.first ≡ first_id messages
  pub last : ref.last ≡ last_id "" messages
  pub n : ref.n ≡ length messages

-- One chunk for each group, in their order, from a place on.
pub data AreRefs : ℕ → List (List Message) → List ChunkRef → Type 0 where
  no_refs : (place : ℕ) → AreRefs place [] []
  one_ref :
      (place : ℕ) (messages : List Message) (ref : ChunkRef) (groups : List (List Message))
      (refs : List ChunkRef)
      → IsRef place messages ref
      → AreRefs (suc place) groups refs
      → AreRefs place (messages ∷ groups) (ref ∷ refs)

pub AreRefs-count :
    (place : ℕ) (groups : List (List Message)) (refs : List ChunkRef)
    → AreRefs place groups refs
    → count_messages refs ≡ length (concat groups)
unfolding count_messages
AreRefs-count place _ _ (no_refs _) = omega arith
AreRefs-count place _ _ (one_ref _ messages ref groups refs one rest) = omega (
  arith,
  AreRefs-count (suc place) groups refs rest,
  one.n,
  length-append messages (concat groups),
)

module _ {P : HeadRows → Type 0} where
  Keeps-frame :
      (r : Result Frame.Error (List ℕ))
      → Keeps
          (OnHeads P)
          (elim r as (λ _. Method (List ℕ)) [ ok b ↦ pure b | err e ↦ fail (unframed e) ])
  Keeps-frame (ok b) = Keeps-pure b
  Keeps-frame (err e) = Keeps-fail (unframed e)

  pub Keeps-fresh_id : (v : Vault) → Keeps (OnHeads P) (fresh_id v)
  unfolding fresh_id
  Keeps-fresh_id v = Keeps-asked (of_vault new_id) v.on_new_id

  pub Runs-write_chunk :
      (v : Vault) (s : Session) (messages : List Message)
      → Runs
          (OnHeads P)
          (write_chunk v s messages)
          (λ x w. IsRef (length s.chunks) messages x.0 × OnHeads P w)
          (λ _ w. OnHeads P w)
  unfolding write_chunk
  Runs-write_chunk v s messages = Runs-bind (Keeps-Runs (Keeps-fresh_id v)) (λ id.
      Runs-bind
        (Runs-forget _ (Runs-check_valid (chunk_validate v.trim_space (chunk_of v id s messages))))
        (λ _.
          Runs-bind
            (Runs-forget _ (Runs-some_or unwritable (v.marshal_chunk (chunk_of v id s messages))))
            (λ body. Runs-bind (Keeps-Runs (Keeps-asked (of_vault (hash_body body)) _)) (λ cid.
              Runs-bind (Keeps-Runs (Keeps-asked (of_vault (seal_body body)) _)) (λ sealed.
                Runs-bind (Keeps-Runs (Keeps-frame (frame_record kind_chunk id sealed))) (λ framed.
                  Runs-bind (Keeps-Runs (Keeps-store_body v id kind_chunk body)) (λ _.
                    Runs-bind (Keeps-Runs (Keeps-on_packer _)) (λ flushed. Runs-pure _ (λ w h.
                      (record { seq = refl; first = refl; last = refl; n = refl }, h))))))))))

-- The head with more chunks, and with their messages and bytes in its counts.
abbrev pub with_chunks : Session → List ChunkRef → Session
with_chunks s refs = record s {
  chunks = s.chunks ++ refs;
  counts = record s.counts {
    messages = s.counts.messages + count_messages refs;
    bytes = s.counts.bytes + sum_bytes refs;
  };
}

-- What a save has made of its groups.
pub record Extends (st : Saving) (groups : List (List Message)) (after : Saving) : Type 0 where
  pub refs : List ChunkRef
  pub each : AreRefs (length st.session.chunks) groups refs
  pub session : after.session ≡ with_chunks st.session refs
  pub chunks : after.chunks ≡ st.chunks ++ refs
  pub messages : after.messages ≡ st.messages + count_messages refs

with_none : (s : Session) → s ≡ with_chunks s []
unfolding count_messages sum_bytes
with_none s = λ i. record s {
  chunks = sym (append-nil s.chunks) i;
  counts = record s.counts {
    messages = none_more s.counts.messages i;
    bytes = none_more s.counts.bytes i;
  };
}
  where
    none_more : (n : ℕ) → n ≡ n + 0
    none_more n = omega arith

with_more :
    (ref : ChunkRef) (flushed : Option Delivery) (st : Saving) (refs : List ChunkRef)
    → with_chunks (saved_chunk ref flushed st).session refs ≡ with_chunks st.session (ref ∷ refs)
unfolding saved_chunk count_messages sum_bytes
with_more ref flushed st refs = λ i. record st.session {
  chunks = append_assoc st.session.chunks (ref ∷ []) refs i;
  counts = record st.session.counts {
    messages = sum_assoc st.session.counts.messages ref.n (count_messages refs) i;
    bytes = sum_assoc st.session.counts.bytes ref.bytes (sum_bytes refs) i;
  };
}
  where
    sum_assoc : (a b c : ℕ) → (a + b) + c ≡ a + (b + c)
    sum_assoc a b c = omega arith

length-snoc :
    (refs : List ChunkRef) (ref : ChunkRef) → length (refs ++ ref ∷ []) ≡ suc (length refs)
length-snoc refs ref = omega (arith, length-append refs (ref ∷ []))

extend :
    (st : Saving) (group : List Message) (groups : List (List Message)) (ref : ChunkRef)
    (flushed : Option Delivery) (after : Saving)
    → IsRef (length st.session.chunks) group ref
    → Extends (saved_chunk ref flushed st) groups after
    → Extends st (group ∷ groups) after
unfolding saved_chunk count_messages
extend st group groups ref flushed after one rest = record {
  refs = ref ∷ rest.refs;
  each =
      one_ref _ group ref groups rest.refs one
        (subst (λ n. AreRefs n groups rest.refs) (length-snoc st.session.chunks ref) rest.each);
  session = rest.session ∙ with_more ref flushed st rest.refs;
  chunks = rest.chunks ∙ append_assoc st.chunks (ref ∷ []) rest.refs;
  messages = omega (arith, rest.messages);
}

module _ {P : HeadRows → Type 0} (v : Vault) where
  pub Runs-write_chunks :
      (st : Saving) (groups : List (List Message))
      → Runs
          (OnHeads P)
          (write_chunks v st groups)
          (λ after w. Extends st groups after × OnHeads P w)
          (λ _ w. OnHeads P w)
  unfolding write_chunks count_messages
  Runs-write_chunks st [] = Runs-pure st (λ w h. (
    record {
      refs = [];
      each = no_refs _;
      session = with_none st.session;
      chunks = sym (append-nil st.chunks);
      messages = omega arith;
    },
    h,
  ))
  Runs-write_chunks st (group ∷ groups) =
      Runs-bind (Runs-write_chunk v st.session group) (λ (ref, flushed). Runs-given (λ one.
        Runs-to (λ after rest. extend st group groups ref flushed after one rest)
          (Runs-write_chunks (saved_chunk ref flushed st) groups)))
