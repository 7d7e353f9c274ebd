-- ===== src/Vault/Session/Load/Pages.antt =====
-- What a page of a transcript is, told of the whole transcript as one list.
use mnemosia.Prelude.{
  ℕ, ◌+◌, ◌≡◌, refl, sym, ap, ◌∙◌, Bool, true, false, Bool-cases, inl, inr, List, [], ◌∷◌, ◌++◌,
  Option, none, some, String, string_keys, ◌==◌, length, concat, arith, if◌then◌else◌,
}
use mnemosia.Prelude.Exec.{Result, ok, err, Exec, continue, pure, ◌>>=◌}
use mnemosia.Record.Kind.{Kind, kind_chunk}
use mnemosia.Record.Message.{Message}
use mnemosia.Record.Chunk.{Chunk, ChunkRef}
use mnemosia.Vault.Request.{last_id}
use mnemosia.Vault.Session.Load.{
  Error, no_message, ChunkStats, Page, Walked, stopped, going, is_full, walk_messages, chunk,
  decoded, walk_chunks,
}
use mnemosia.Vault.Session.Load.Fill.{search_from, fill}

-- What is left to do with the messages that come, on a page that has some already.
unfoldable pub after : String → ℕ → List Message → Bool → List Message → Result Error Page
after from limit out started ms =
    if started then ok (fill limit out ms) else elim (search_from from ms) [
      | none ↦ err (no_message from)
      | some found ↦ ok (fill limit out found)
    ]

after_walk : String → ℕ → List Message → Walked → Result Error Page
after_walk from limit rest (stopped out next) = ok (out, some next)
after_walk from limit rest (going out started) = after from limit out started rest

-- A chunk's messages leave the rest as the walk over them says.
after-walk_messages :
    (from : String) (limit : ℕ) (out : List Message) (started : Bool) (ms rest : List Message)
    → after from limit out started (ms ++ rest)
      ≡ after_walk from limit rest (walk_messages from limit out started ms)
unfolding after after_walk walk_messages search_from fill
after-walk_messages from limit out started [] rest = refl
after-walk_messages from limit out true (m ∷ ms) rest =
    ground (arith, after-walk_messages from limit (out ++ m ∷ []) true ms rest)
after-walk_messages from limit out false (m ∷ ms) rest = ground (
  arith,
  after-walk_messages from limit out false ms rest,
  after-walk_messages from limit (out ++ m ∷ []) true ms rest,
)

Unstarted : Walked → List Message → Type 0
Unstarted (stopped out next) before = Unit
Unstarted (going out true) before = Unit
Unstarted (going out false) before = out ≡ before

Unstarted-if :
    (b : Bool) (x y : Walked) (before : List Message)
    → Unstarted x before
    → Unstarted y before
    → Unstarted (if b then x else y) before
Unstarted-if true x y before h k = h
Unstarted-if false x y before h k = k

-- Until it has begun a page holds nothing more.
walk_messages-Unstarted :
    (from : String) (limit : ℕ) (out before : List Message) (started : Bool) (ms : List Message)
    → (started ≡ false → out ≡ before)
    → Unstarted (walk_messages from limit out started ms) before
unfolding walk_messages Unstarted
walk_messages-Unstarted from limit out before true [] h = tt
walk_messages-Unstarted from limit out before false [] h = h refl
walk_messages-Unstarted from limit out before true (m ∷ ms) h =
    Unstarted-if (is_full limit out) (stopped out m.id)
      (walk_messages from limit (out ++ m ∷ []) true ms) before tt
      (walk_messages-Unstarted from limit (out ++ m ∷ []) before true ms (λ e. ground (arith, e)))
walk_messages-Unstarted from limit out before false (m ∷ ms) h =
    Unstarted-if (m.id == from)
      (if is_full limit out
        then stopped out m.id
        else walk_messages from limit (out ++ m ∷ []) true ms)
      (walk_messages from limit out false ms) before
      (Unstarted-if (is_full limit out) (stopped out m.id)
        (walk_messages from limit (out ++ m ∷ []) true ms) before tt
        (walk_messages-Unstarted from limit (out ++ m ∷ []) before true ms
          (λ e. ground (arith, e))))
      (walk_messages-Unstarted from limit out before false ms h)

module _ (fetch_body : ℕ → Result Error (Kind × List ℕ))
    (unmarshal_chunk : List ℕ → Option Chunk) where
  -- The body of the chunk reads as these messages, and the head says which are at its ends.
  pub record Holds (ref : ChunkRef) (head : Message) (tail : List Message) : Type 0 where
    pub body : List ℕ
    pub chunk : Chunk
    pub fetched : fetch_body ref.id ≡ ok (kind_chunk, body)
    pub decodes : unmarshal_chunk body ≡ some chunk
    pub messages : chunk.messages ≡ head ∷ tail
    pub first : ref.first ≡ head.id
    pub last : ref.last ≡ last_id head.id tail

  -- A transcript in chunks, none of which is empty.
  pub data AreStored : List ChunkRef → List (List Message) → Type 0 where
    none_stored : AreStored [] []
    one_stored :
        (ref : ChunkRef) (head : Message) (tail : List Message) (refs : List ChunkRef)
        (groups : List (List Message))
        → Holds ref head tail
        → AreStored refs groups
        → AreStored (ref ∷ refs) ((head ∷ tail) ∷ groups)

  counted : ChunkStats → List ℕ → ChunkStats
  counted s body = record {
    chunk_reads = s.chunk_reads + 1;
    chunk_bytes = s.chunk_bytes + length body;
  }

  chunk-Holds :
      (ref : ChunkRef) (head : Message) (tail : List Message) (h : Holds ref head tail)
      (s : ChunkStats)
      → chunk fetch_body unmarshal_chunk ref.id s ≡ (ok h.chunk, counted s h.body)
  unfolding chunk decoded counted
  chunk-Holds ref head tail h s = ground (arith, h.fetched, h.decodes)

  walk_on : String → ℕ → List ChunkRef → Walked → Exec ChunkStats Error Page
  walk_on from limit rest (stopped out next) s = (ok (out, some next), s)
  walk_on from limit rest (going out started) s =
      walk_chunks fetch_body unmarshal_chunk from limit out started rest s

  same_walk :
      (from : String) (limit : ℕ) (rest : List ChunkRef) (x : Walked) (s : ChunkStats)
      → (elim x as (λ _. Exec ChunkStats Error Page) [
        | stopped out next ↦ pure (out, some next)
        | going out started ↦ walk_chunks fetch_body unmarshal_chunk from limit out started rest
      ])
          s
        ≡ walk_on from limit rest x s
  unfolding walk_on
  same_walk from limit rest (stopped out next) s = refl
  same_walk from limit rest (going out started) s = refl

  -- A chunk is read where the page has room.
  walk_one :
      (from : String) (limit : ℕ) (out : List Message) (started : Bool) (ref : ChunkRef)
      (rest : List ChunkRef) (head : Message) (tail : List Message) (h : Holds ref head tail)
      (s : ChunkStats)
      → is_full limit out ≡ false
      → walk_chunks fetch_body unmarshal_chunk from limit out started (ref ∷ rest) s
        ≡ walk_on from limit rest
            (walk_messages from limit out started (head ∷ tail))
            (counted s h.body)
  unfolding walk_chunks
  walk_one from limit out started ref rest head tail h s room =
      ap (λ b. (if b then pure (out, some ref.first) else reading) s) room
      ∙ ap (continue on_chunk) (chunk-Holds ref head tail h s)
      ∙ same_walk from limit rest (walk_messages from limit out started h.chunk.messages)
          (counted s h.body)
      ∙ ap
          (λ ms.
            walk_on from limit rest (walk_messages from limit out started ms) (counted s h.body))
          h.messages
    where
      on_chunk : Chunk → Exec ChunkStats Error Page
      on_chunk c =
          elim (walk_messages from limit out started c.messages)
            as (λ _. Exec ChunkStats Error Page) [
              | stopped out next ↦ pure (out, some next)
              | going out started ↦
                  walk_chunks fetch_body unmarshal_chunk from limit out started rest
            ]

      reading : Exec ChunkStats Error Page
      reading = chunk fetch_body unmarshal_chunk ref.id >>= on_chunk

  walk_full :
      (from : String) (limit : ℕ) (out : List Message) (started : Bool) (ref : ChunkRef)
      (rest : List ChunkRef) (s : ChunkStats)
      → is_full limit out ≡ true
      → walk_chunks fetch_body unmarshal_chunk from limit out started (ref ∷ rest) s
        ≡ (ok (out, some ref.first), s)
  unfolding walk_chunks
  walk_full from limit out started ref rest s full = ground (arith, full)

  after_full :
      (from : String) (limit : ℕ) (out : List Message) (started : Bool) (head : Message)
      (ms : List Message)
      → is_full limit out ≡ true
      → (started ≡ false → is_full limit out ≡ false)
      → after from limit out started (head ∷ ms) ≡ ok (out, some head.id)
  unfolding after fill
  after_full from limit out true head ms full k = ground (arith, full)
  after_full from limit out false head ms full k = ground (arith, full, k refl)

  abbrev Answers : String → ℕ → List ChunkRef → List Message → Type 0
  Answers from limit refs ms =
      (out : List Message) (started : Bool) (s : ChunkStats)
      → (started ≡ false → is_full limit out ≡ false)
      → (walk_chunks fetch_body unmarshal_chunk from limit out started refs s).0
        ≡ after from limit out started ms

  onward :
      (from : String) (limit : ℕ) (refs : List ChunkRef) (ms out : List Message) (x : Walked)
      (s : ChunkStats)
      → is_full limit out ≡ false
      → Answers from limit refs ms
      → Unstarted x out
      → (walk_on from limit refs x s).0 ≡ after_walk from limit ms x
  unfolding walk_on after_walk Unstarted
  onward from limit refs ms out (stopped o n) s room ih u = refl
  onward from limit refs ms out (going o true) s room ih u = ih o true s (λ e. ground (arith, e))
  onward from limit refs ms out (going o false) s room ih u =
      ih o false s (λ e. ap (is_full limit) u ∙ room)

  -- What the walk over the chunks answers, told of all their messages.
  pub walk_chunks-AreStored :
      (from : String) (limit : ℕ) (out : List Message) (started : Bool) (refs : List ChunkRef)
      (groups : List (List Message)) (s : ChunkStats)
      → AreStored refs groups
      → (started ≡ false → is_full limit out ≡ false)
      → (walk_chunks fetch_body unmarshal_chunk from limit out started refs s).0
        ≡ after from limit out started (concat groups)
  unfolding walk_chunks after fill search_from
  walk_chunks-AreStored from limit out true _ _ s none_stored k = refl
  walk_chunks-AreStored from limit out false _ _ s none_stored k = refl
  walk_chunks-AreStored from limit out started _ _ s (one_stored ref head tail refs groups h rest)
        k =
      elim (Bool-cases (is_full limit out)) [
        | inl full ↦
            ap (λ (x : Result Error Page × ChunkStats). x.0)
              (walk_full from limit out started ref refs s full)
            ∙ ap (λ id. ok (out, some id)) h.first
            ∙ sym (after_full from limit out started head (tail ++ concat groups) full k)
        | inr room ↦
            ap (λ (x : Result Error Page × ChunkStats). x.0)
              (walk_one from limit out started ref refs head tail h s room)
            ∙ onward from limit refs (concat groups) out
                (walk_messages from limit out started (head ∷ tail)) (counted s h.body) room
                (λ o st s' k'. walk_chunks-AreStored from limit o st refs groups s' rest k')
                (walk_messages-Unstarted from limit out out started (head ∷ tail) (λ e. refl))
            ∙ sym (after-walk_messages from limit out started (head ∷ tail) (concat groups))
      ]
