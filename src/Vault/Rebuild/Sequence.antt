-- ===== src/Vault/Rebuild/Sequence.antt =====
-- The chunks of a conversation come back in their sequence, in whatever order they are listed.
use mnemosia.Prelude.{
  ℕ, suc, zero, ◌+◌, ◌≡◌, ◌≢◌, refl, sym, ap, ◌∙◌, nat_eq, false, List, [], ◌∷◌, ◌++◌, map,
  append-nil, append_assoc, Option, none, some, map_get, map_get-map_put, number_keys, All, arith,
  if◌then◌else◌,
}
unfoldable use native.Mathlib.Decide.{ℕ_discrete}
use mnemosia.Record.Chunk.{Chunk}
use mnemosia.Vault.Rebuild.Gather.{
  Groups, Gathered, nothing_gathered, group_of, file_chunk, file_chunks, insert_by_seq, sort_by_seq,
  sort_groups, group_chunks_by_session, gap_from, has_sequence_gap,
}

-- One list is another in some order.
pub data Reorders {A : Type 0} : List A → List A → Type 0 where
  none_left : Reorders [] []
  same_head : (a : A) {xs ys : List A} → Reorders xs ys → Reorders (a ∷ xs) (a ∷ ys)
  swapped : (a b : A) (xs : List A) → Reorders (a ∷ b ∷ xs) (b ∷ a ∷ xs)
  in_steps : {xs ys zs : List A} → Reorders xs ys → Reorders ys zs → Reorders xs zs

All-Reorders : {A : Type 0} (P : A → Type 0) {xs ys : List A} → Reorders xs ys → All P ys → All P xs
All-Reorders P none_left h = tt
All-Reorders P (same_head a r) h = (h.0, All-Reorders P r h.1)
All-Reorders P (swapped a b xs) h = (h.1.0, (h.0, h.1.1))
All-Reorders P (in_steps r s) h = All-Reorders P r (All-Reorders P s h)

-- Each chunk carries its place, counted from there.
abbrev pub IsSequence : ℕ → List Chunk → Type 0
IsSequence i [] = Unit
IsSequence i (c ∷ cs) = (c.seq ≡ i) × IsSequence (suc i) cs

nth : ℕ → List Chunk → Option Chunk
nth i [] = none
nth zero (c ∷ cs) = some c
nth (suc i) (c ∷ cs) = nth i cs

-- The chunk that stands where its number says.
abbrev InPlace : List Chunk → ℕ → Chunk → Type 0
InPlace cs from c = (k : ℕ) × (c.seq ≡ from + k) × (nth k cs ≡ some c)

step_in :
    (d : Chunk) (cs xs : List Chunk) (from : ℕ)
    → All (InPlace cs (suc from)) xs
    → All (InPlace (d ∷ cs) from) xs
unfolding nth
step_in d cs [] from h = tt
step_in d cs (x ∷ xs) from ((k, at, is), rest) =
    ((suc k, omega (arith, at), is), step_in d cs xs from rest)

IsSequence-InPlace : (from : ℕ) (cs : List Chunk) → IsSequence from cs → All (InPlace cs from) cs
unfolding nth
IsSequence-InPlace from [] h = tt
IsSequence-InPlace from (c ∷ cs) h =
    ((0, omega (arith, h.0), refl), step_in c cs cs from (IsSequence-InPlace (suc from) cs h.1))

some_inj : (a b : Chunk) → some a ≡ some b → a ≡ b
some_inj a b h = ground arith

-- Two chunks in place with one number are one.
InPlace-inj :
    (cs : List Chunk) (from : ℕ) (a b : Chunk)
    → InPlace cs from a
    → InPlace cs from b
    → a.seq ≡ b.seq
    → a ≡ b
InPlace-inj cs from a b (k, at, is) (l, at', is') h =
    some_inj a b (sym is ∙ ap (λ i. nth i cs) (omega arith) ∙ is')

insert_apart :
    (a b : Chunk) (xs : List Chunk)
    → a.seq ≢ b.seq
    → insert_by_seq a (insert_by_seq b xs) ≡ insert_by_seq b (insert_by_seq a xs)
unfolding insert_by_seq
insert_apart a b [] h = ground arith
insert_apart a b (x ∷ xs) h = ground (arith, insert_apart a b xs h)

insert_swap :
    (a b : Chunk) (xs : List Chunk)
    → (a.seq ≡ b.seq → a ≡ b)
    → insert_by_seq a (insert_by_seq b xs) ≡ insert_by_seq b (insert_by_seq a xs)
insert_swap a b xs h = elim (ℕ_discrete a.seq b.seq) [
  | yes e ↦
      ap (λ c. insert_by_seq c (insert_by_seq b xs)) (h e)
      ∙ ap (λ c. insert_by_seq b (insert_by_seq c xs)) (sym (h e))
  | no n ↦ insert_apart a b xs n
]

sort-Reorders :
    (cs : List Chunk) (from : ℕ) {xs ys : List Chunk}
    → Reorders xs ys
    → All (InPlace cs from) ys
    → sort_by_seq xs ≡ sort_by_seq ys
unfolding sort_by_seq
sort-Reorders cs from none_left h = refl
sort-Reorders cs from (same_head a r) h = ap (insert_by_seq a) (sort-Reorders cs from r h.1)
sort-Reorders cs from (swapped a b xs) h =
    insert_swap a b (sort_by_seq xs) (InPlace-inj cs from a b h.1.0 h.0)
sort-Reorders cs from (in_steps r s) h =
    sort-Reorders cs from r (All-Reorders (InPlace cs from) s h) ∙ sort-Reorders cs from s h

insert_first :
    (i : ℕ) (c : Chunk) (cs : List Chunk)
    → c.seq ≡ i
    → IsSequence (suc i) cs
    → insert_by_seq c cs ≡ c ∷ cs
unfolding insert_by_seq
insert_first i c [] h k = refl
insert_first i c (x ∷ xs) h k = ground (arith, k.0)

sort-IsSequence : (i : ℕ) (cs : List Chunk) → IsSequence i cs → sort_by_seq cs ≡ cs
unfolding sort_by_seq
sort-IsSequence i [] h = refl
sort-IsSequence i (c ∷ cs) h =
    ap (insert_by_seq c) (sort-IsSequence (suc i) cs h.1) ∙ insert_first i c cs h.0 h.1

gap-IsSequence : (i : ℕ) (cs : List Chunk) → IsSequence i cs → gap_from i cs ≡ false
unfolding gap_from
gap-IsSequence i [] h = refl
gap-IsSequence i (c ∷ cs) h = ground (arith, h.0, gap-IsSequence (suc i) cs h.1)

pub has_sequence_gap-IsSequence : (cs : List Chunk) → IsSequence 0 cs → has_sequence_gap cs ≡ false
unfolding has_sequence_gap
has_sequence_gap-IsSequence cs h = gap-IsSequence 0 cs h

-- Of the chunks that were read, those that name the conversation.
unfoldable pub of_session : ℕ → List (Option Chunk) → List Chunk
of_session id [] = []
of_session id (none ∷ rest) = of_session id rest
of_session id (some c ∷ rest) =
    let others = of_session id rest in if nat_eq c.session id then c ∷ others else others

abbrev pub chunks_in : ℕ → Groups → List Chunk
chunks_in id groups = group_of (map_get groups id)

of_option : ℕ → Option Chunk → List Chunk
of_option id none = []
of_option id (some c) = if nat_eq c.session id then c ∷ [] else []

of_session-cons :
    (id : ℕ) (o : Option Chunk) (rest : List (Option Chunk))
    → of_session id (o ∷ rest) ≡ of_option id o ++ of_session id rest
unfolding of_session of_option
of_session-cons id none rest = refl
of_session-cons id (some c) rest = ground arith

chunks_in-file_chunk :
    (id : ℕ) (o : Option Chunk) (g : Gathered)
    → id ≢ 0
    → chunks_in id (file_chunk o g).groups ≡ chunks_in id g.groups ++ of_option id o
unfolding file_chunk of_option
chunks_in-file_chunk id none g h = sym (append-nil _)
chunks_in-file_chunk id (some c) g h = ground (
  arith,
  append-nil (chunks_in id g.groups),
  map_get-map_put g.groups c.session (group_of (map_get g.groups c.session) ++ c ∷ []) id,
)

module _ (read_chunk : ℕ → Option Chunk) where
  chunks_in-file_chunks :
      (id : ℕ) (ids : List ℕ) (g : Gathered)
      → id ≢ 0
      → chunks_in id (file_chunks read_chunk ids g).groups
        ≡ chunks_in id g.groups ++ of_session id (map read_chunk ids)
  unfolding file_chunks of_session
  chunks_in-file_chunks id [] g h = sym (append-nil _)
  chunks_in-file_chunks id (i ∷ ids) g h =
      chunks_in-file_chunks id ids (file_chunk (read_chunk i) g) h
      ∙ ap (λ l. l ++ of_session id (map read_chunk ids))
          (chunks_in-file_chunk id (read_chunk i) g h)
      ∙ append_assoc (chunks_in id g.groups) (of_option id (read_chunk i)) _
      ∙ ap (◌++◌ (chunks_in id g.groups))
          (sym (of_session-cons id (read_chunk i) (map read_chunk ids)))

  chunks_in-sort_groups :
      (id : ℕ) (groups : Groups)
      → chunks_in id (sort_groups groups) ≡ sort_by_seq (chunks_in id groups)
  unfolding sort_groups map_get sort_by_seq
  chunks_in-sort_groups id [] = refl
  chunks_in-sort_groups id ((i, cs) ∷ rest) = ground (arith, chunks_in-sort_groups id rest)

  -- Of what was read, in any order, the chunks of a conversation are filed in their sequence.
  pub chunks_in-group_chunks_by_session :
      (id : ℕ) (ids : List ℕ) (cs : List Chunk)
      → id ≢ 0
      → Reorders (of_session id (map read_chunk ids)) cs
      → IsSequence 0 cs
      → chunks_in id (group_chunks_by_session read_chunk ids).groups ≡ cs
  unfolding group_chunks_by_session map_get
  chunks_in-group_chunks_by_session id ids cs h order sequence =
      chunks_in-sort_groups id (file_chunks read_chunk ids nothing_gathered).groups
      ∙ ap sort_by_seq (chunks_in-file_chunks id ids nothing_gathered h)
      ∙ sort-Reorders cs 0 order (IsSequence-InPlace 0 cs sequence)
      ∙ sort-IsSequence 0 cs sequence
