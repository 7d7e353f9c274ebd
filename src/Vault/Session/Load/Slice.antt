-- ===== src/Vault/Session/Load/Slice.antt =====
-- A page is a slice of the whole transcript, whichever chunk the read begins at.
use mnemosia.Prelude.{
  ℕ, suc, ◌+◌, ◌≡◌, refl, sym, ap, subst, ◌∙◌, Bool, true, false, Bool-cases, ◌||◌, ◌⊎◌, inl, inr,
  List, [], ◌∷◌, ◌++◌, Option, none, some, Option-cases, String, string_keys, ◌==◌, drop, concat,
  arith,
}
use text.Mathlib.TextEquality.{eq_iff}
use mnemosia.Prelude.Exec.{Result, ok, err}
use mnemosia.Record.Kind.{Kind}
use mnemosia.Record.Message.{Message}
use mnemosia.Record.Chunk.{Chunk, ChunkRef}
use mnemosia.Record.Session.{Session}
use mnemosia.Vault.Request.{last_id}
use mnemosia.Vault.Session.Load.{
  Error, no_message, ChunkStats, Page, first_at, start_chunk, is_full, transcript,
}
use mnemosia.Vault.Session.Load.Fill.{search_from, suffix, page, fill-page}
use mnemosia.Vault.Session.Load.Pages.{
  after, Holds, AreStored, none_stored, one_stored, walk_chunks-AreStored,
}

-- Whether some message has the id.
unfoldable pub has : String → List Message → Bool
has id [] = false
has id (m ∷ ms) = m.id == id || has id ms

-- No two messages have one id.
abbrev pub IsDistinct : List Message → Type 0
IsDistinct [] = Unit
IsDistinct (m ∷ ms) = (has m.id ms ≡ false) × IsDistinct ms

has-append : (id : String) (xs ys : List Message) → has id (xs ++ ys) ≡ (has id xs || has id ys)
unfolding has
has-append id [] ys = refl
has-append id (x ∷ xs) ys = ground (arith, has-append id xs ys)

search_from-append :
    (id : String) (xs ys : List Message)
    → has id xs ≡ false
    → search_from id (xs ++ ys) ≡ search_from id ys
unfolding has search_from
search_from-append id [] ys h = refl
search_from-append id (x ∷ xs) ys h = ground (arith, h, search_from-append id xs ys)

IsDistinct-append : (xs ys : List Message) → IsDistinct (xs ++ ys) → IsDistinct ys
IsDistinct-append [] ys d = d
IsDistinct-append (x ∷ xs) ys (one, d) = IsDistinct-append xs ys d

IsDistinct-apart :
    (id : String) (xs ys : List Message)
    → IsDistinct (xs ++ ys)
    → has id ys ≡ true
    → has id xs ≡ false
unfolding has
IsDistinct-apart id [] ys d h = refl
IsDistinct-apart id (x ∷ xs) ys (one, d) h = elim (Bool-cases (x.id == id)) [
  | inl e ↦
      let here : has id (xs ++ ys) ≡ false =
        ap (λ j. has j (xs ++ ys)) (sym ((eq_iff x.id id).0 e)) ∙ one in
      ground (arith, here, has-append id xs ys, h)
  | inr e ↦ ground (arith, e, IsDistinct-apart id xs ys d h)
]

last_id-has :
    (id x : String) (ms : List Message)
    → (last_id x ms == id) ≡ true
    → (x == id || has id ms) ≡ true
unfolding has last_id
last_id-has id x [] h = ground (arith, h)
last_id-has id x (m ∷ ms) h = ground (arith, last_id-has id m.id ms h)

-- The page that a request names, told of the transcript as one list.
unfoldable pub slice : String → ℕ → List Message → Result Error Page
slice from limit ms = elim (suffix from ms) [
  | none ↦ err (no_message from)
  | some found ↦ ok (page limit found)
]

after-slice :
    (from : String) (limit : ℕ) (ms : List Message)
    → after from limit [] (from == "") ms ≡ slice from limit ms
unfolding after slice suffix
after-slice from limit ms = elim (Option-cases (search_from from ms)) [
  | inl e ↦ ground (arith, e, fill-page limit ms)
  | inr (found, e) ↦ ground (arith, e, fill-page limit ms, fill-page limit found)
]

never_full : (limit : ℕ) → is_full limit [] ≡ false
unfolding is_full
never_full limit = ground arith

module _ (fetch_body : ℕ → Result Error (Kind × List ℕ))
    (unmarshal_chunk : List ℕ → Option Chunk) where
  has-Holds :
      (id : String) (ref : ChunkRef) (head : Message) (tail : List Message)
      → Holds fetch_body unmarshal_chunk ref head tail
      → (ref.first == id || ref.last == id) ≡ true
      → has id (head ∷ tail) ≡ true
  unfolding has
  has-Holds id ref head tail h hit =
      let same : (head.id == id || last_id head.id tail == id) ≡ true =
        ap (λ x. x == id || last_id head.id tail == id) (sym h.first)
        ∙ ap (λ x. ref.first == id || x == id) (sym h.last)
        ∙ hit in
      ground (arith, same, last_id-has id head.id tail)

  -- What stands from the chunk on at which the read begins.
  record Skips (from : String) (refs : List ChunkRef) (groups : List (List Message)) (k : ℕ)
      : Type 0 where
    stored : AreStored fetch_body unmarshal_chunk (drop k refs) (drop k groups)
    there : has from (concat groups) ≡ true
    same : search_from from (concat (drop k groups)) ≡ search_from from (concat groups)

  first_at-Skips :
      (i : ℕ) (from : String) (refs : List ChunkRef) (groups : List (List Message))
      → AreStored fetch_body unmarshal_chunk refs groups
      → IsDistinct (concat groups)
      → (first_at i from refs ≡ 0)
        ⊎ ((k : ℕ) × (first_at i from refs ≡ i + k) × Skips from refs groups k)
  unfolding first_at
  first_at-Skips i from _ _ none_stored d = inl refl
  first_at-Skips i from _ _ (one_stored ref head tail refs groups h rest) d =
      elim (Bool-cases (ref.first == from || ref.last == from)) [
        | inl hit ↦ inr (
          0,
          ground (arith, hit),
          record {
            stored = one_stored ref head tail refs groups h rest;
            there = ground (
              arith,
              has-append from (head ∷ tail) (concat groups),
              has-Holds from ref head tail h hit,
            );
            same = refl;
          },
        )
        | inr miss ↦
            elim (first_at-Skips (suc i) from refs groups rest
              (IsDistinct-append (head ∷ tail) (concat groups) d)) [
                | inl gone ↦ inl (ground (arith, miss, gone))
                | inr (k, e, s) ↦ inr (
                  suc k,
                  ground (arith, miss, e),
                  record {
                    stored = s.stored;
                    there = ground (arith, has-append from (head ∷ tail) (concat groups), s.there);
                    same =
                        s.same
                        ∙ sym (
                            search_from-append from (head ∷ tail) (concat groups)
                              (IsDistinct-apart from (head ∷ tail) (concat groups) d s.there));
                  },
                )
              ]
      ]

  -- Where a read begins does not show in what it finds.
  record Begins (from : String) (limit : ℕ) (refs : List ChunkRef) (groups : List (List Message))
      (k : ℕ) : Type 0 where
    stored : AreStored fetch_body unmarshal_chunk (drop k refs) (drop k groups)
    same :
        after from limit [] (from == "") (concat (drop k groups))
        ≡ after from limit [] (from == "") (concat groups)

  Skips-Begins :
      (from : String) (limit : ℕ) (refs : List ChunkRef) (groups : List (List Message)) (k : ℕ)
      → (from == "") ≡ false
      → Skips from refs groups k
      → Begins from limit refs groups k
  unfolding after
  Skips-Begins from limit refs groups k e s = record {
    stored = s.stored;
    same = ground (arith, e, s.same);
  }

  start_chunk-Begins :
      (s : Session) (from : String) (limit : ℕ) (groups : List (List Message))
      → AreStored fetch_body unmarshal_chunk s.chunks groups
      → IsDistinct (concat groups)
      → Begins from limit s.chunks groups (start_chunk s from)
  unfolding start_chunk
  start_chunk-Begins s from limit groups stored d = elim (Bool-cases (from == "")) [
    | inl e ↦ at_place 0 (ground (arith, e)) whole
    | inr e ↦ elim (first_at-Skips 0 from s.chunks groups stored d) [
      | inl gone ↦ at_place 0 (ground (arith, e, gone)) whole
      | inr (k, found, skips) ↦
          at_place k (ground (arith, e, found)) (Skips-Begins from limit s.chunks groups k e skips)
    ]
  ]
    where
      at_place :
          (k : ℕ)
          → start_chunk s from ≡ k
          → Begins from limit s.chunks groups k
          → Begins from limit s.chunks groups (start_chunk s from)
      at_place k e b = subst (Begins from limit s.chunks groups) (sym e) b

      whole : Begins from limit s.chunks groups 0
      whole = record { stored = stored; same = refl }

  -- A conversation's chunks read as groups of messages that the head's ends match, no two messages
  -- have one id, and reading them is not refused. Then a request is answered with the slice that it
  -- names of all the messages: from the message of that id on, or from the first where it names none,
  -- at most the limit, with the id of the message that comes next if one does; and with an error
  -- exactly where no message has that id.
  pub transcript_lem :
      (s : Session) (from : String) (limit : ℕ) (groups : List (List Message)) (stats : ChunkStats)
      → AreStored fetch_body unmarshal_chunk s.chunks groups
      → IsDistinct (concat groups)
      → (transcript fetch_body unmarshal_chunk s from limit stats).0
        ≡ slice from limit (concat groups)
  unfolding transcript
  transcript_lem s from limit groups stats stored d =
      let b = start_chunk-Begins s from limit groups stored d in
      walk_chunks-AreStored fetch_body unmarshal_chunk from limit [] (from == "")
        (drop (start_chunk s from) s.chunks) (drop (start_chunk s from) groups) stats b.stored
        (λ e. never_full limit)
      ∙ b.same
      ∙ after-slice from limit (concat groups)
