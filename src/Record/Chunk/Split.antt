-- ===== src/Record/Chunk/Split.antt =====
-- What the groups of a split are.
use mnemosia.Prelude.{
  ℕ, ◌+◌, ◌≤◌, ◌<◌, ◌≡◌, refl, sym, ap, ◌∙◌, ltb, true, false, Bool-cases, List, [], ◌∷◌, ◌++◌,
  append_assoc, Option, none, some, Option-cases, All, concat, ◌⊎◌, inl, inr, arith,
}
use mnemosia.Record.Message.{Message}
use mnemosia.Record.Chunk.{
  Splitting, no_groups, is_empty, put_message, put_messages, close_group, target_or_default,
  groups_of, split_messages,
}

module _ (message_bytes : Message → Option ℕ) where
  -- What a message takes, where it can be measured.
  bytes_or_zero : Option ℕ → ℕ
  bytes_or_zero none = 0
  bytes_or_zero (some n) = n

  unfoldable pub size_of : Message → ℕ
  unfolding bytes_or_zero
  size_of m = bytes_or_zero (message_bytes m)

  unfoldable pub total : List Message → ℕ
  total [] = 0
  total (m ∷ ms) = size_of m + total ms

  abbrev pub IsMeasured : Message → Type 0
  IsMeasured m = (size : ℕ) × (message_bytes m ≡ some size)

  abbrev pub first_of : List (List Message) → Option Message
  first_of [] = none
  first_of ([] ∷ gs) = none
  first_of ((m ∷ ms) ∷ gs) = some m

  module _ (target : ℕ) where
    -- A group holds a message at least; it is within the target or is one message; and the message
    -- that comes next would have taken it past the target.
    pub record IsGroup (g : List Message) (next : Option Message) : Type 0 where
      pub holds : is_empty g ≡ false
      pub within : (total g ≤ target) ⊎ ((m : Message) × (g ≡ m ∷ []))
      pub full : (m : Message) → next ≡ some m → target < total g + size_of m

    pub AreGroups : List (List Message) → Type 0
    AreGroups [] = Unit
    AreGroups (g ∷ gs) = IsGroup g (first_of gs) × AreGroups gs

    total-append : (xs : List Message) (m : Message) → total (xs ++ m ∷ []) ≡ total xs + size_of m
    unfolding total
    total-append [] m = omega arith
    total-append (x ∷ xs) m = omega (arith, total-append xs m)

    -- What is made of an open group that begins with a message, and of the messages after it.
    record Made (m : Message) (group ms : List Message) (out closed : List (List Message))
        : Type 0 where
      rest : List (List Message)
      made : closed ≡ out ++ rest
      starts : first_of rest ≡ some m
      whole : concat rest ≡ group ++ ms
      groups : AreGroups rest

    abbrev state : List (List Message) → List Message → ℕ → Splitting
    state out group b = record { out = out; group = group; group_bytes = b }

    abbrev Fits : List Message → Type 0
    Fits g = (total g ≤ target) ⊎ ((m : Message) × (g ≡ m ∷ []))

    put_full :
        (out : List (List Message)) (m : Message) (ys : List Message) (b : ℕ) (x : Message)
        (size : ℕ)
        → ltb target (b + size) ≡ true
        → put_message target x size (state out (m ∷ ys) b)
          ≡ state (out ++ (m ∷ ys) ∷ []) (x ∷ []) size
    unfolding put_message is_empty
    put_full out m ys b x size h = ground (arith, h)

    put_room :
        (out : List (List Message)) (m : Message) (ys : List Message) (b : ℕ) (x : Message)
        (size : ℕ)
        → ltb target (b + size) ≡ false
        → put_message target x size (state out (m ∷ ys) b)
          ≡ state out (m ∷ (ys ++ x ∷ [])) (b + size)
    unfolding put_message is_empty
    put_room out m ys b x size h = ground (arith, h)

    abbrev Measures : List Message → Type 0
    Measures ms = All IsMeasured ms

    abbrev Outcome : Message → List Message → List Message → List (List Message) → ℕ → Type 0
    Outcome m ys ms out b =
        (s : Splitting) × (put_messages message_bytes target (state out (m ∷ ys) b) ms ≡ some s)
        × Made m (m ∷ ys) ms out (close_group s)

    measured : (x : Message) (size : ℕ) → message_bytes x ≡ some size → size_of x ≡ size
    unfolding size_of bytes_or_zero
    measured x size k = ground (arith, k)

    just_one : (x : Message) (size : ℕ) → message_bytes x ≡ some size → size ≡ total (x ∷ [])
    unfolding total
    just_one x size k = omega (arith, measured x size k)

    with_next :
        (g : List Message) (b size : ℕ) (x m : Message) (rest : List (List Message))
        → b ≡ total g
        → message_bytes x ≡ some size
        → first_of rest ≡ some x
        → first_of rest ≡ some m
        → b + size ≡ total g + size_of m
    with_next g b size x m rest e k h h' =
        let same : size_of x ≡ size_of m = ground (arith, ap (bytes_at 0) (sym h ∙ h')) in
        omega (arith, e, measured x size k, same)
      where
        bytes_at : ℕ → Option Message → ℕ
        bytes_at d none = d
        bytes_at d (some m) = size_of m

    make_group :
        (m : Message) (ys ms : List Message) (out : List (List Message)) (b : ℕ)
        → b ≡ total (m ∷ ys)
        → Fits (m ∷ ys)
        → Measures ms
        → Outcome m ys ms out b
    unfolding put_messages close_group is_empty AreGroups
    make_group m ys [] out b e fits all = (
      state out (m ∷ ys) b,
      refl,
      record {
        rest = (m ∷ ys) ∷ [];
        made = refl;
        starts = refl;
        whole = refl;
        groups = (record { holds = refl; within = fits; full = λ x h. ground arith }, tt);
      },
    )
    make_group m ys (x ∷ xs) out b e fits ((size, k), all) =
        elim (Bool-cases (ltb target (b + size))) [
          | inl over ↦
              let (s, run, r) =
                make_group x [] xs (out ++ (m ∷ ys) ∷ []) size (just_one x size k) (inr (x, refl))
                  all in
              (
                s,
                ground (arith, k, put_full out m ys b x size over, run),
                record {
                  rest = (m ∷ ys) ∷ r.rest;
                  made = r.made ∙ append_assoc out ((m ∷ ys) ∷ []) r.rest;
                  starts = refl;
                  whole = ap (λ l. (m ∷ ys) ++ l) r.whole;
                  groups = (
                    record {
                      holds = refl;
                      within = fits;
                      full = λ n h.
                          ground (arith, over, with_next (m ∷ ys) b size x n r.rest e k r.starts h);
                    },
                    r.groups,
                  );
                },
              )
          | inr room ↦
              let grown : b + size ≡ total (m ∷ (ys ++ x ∷ [])) =
                omega (arith, e, measured x size k, total-append (m ∷ ys) x) in
              let (s, run, r) =
                make_group m (ys ++ x ∷ []) xs out (b + size) grown
                  (inl (ground (arith, room, grown))) all in
              (
                s,
                ground (arith, k, put_room out m ys b x size room, run),
                record {
                  rest = r.rest;
                  made = r.made;
                  starts = r.starts;
                  whole = r.whole ∙ append_assoc (m ∷ ys) (x ∷ []) xs;
                  groups = r.groups;
                },
              )
        ]

  first_put :
      (goal : ℕ) (m : Message) (size : ℕ)
      → put_message goal m size no_groups ≡ state goal [] (m ∷ []) size
  unfolding put_message is_empty
  first_put goal m size = ap (λ b. state goal [] (m ∷ []) b) (omega arith)

  -- Messages that can be measured are divided; the groups hold them all in their order, no group is
  -- empty, each is within the target or is one message, and each is closed only where the message that
  -- follows would have taken it past the target.
  pub split_messages_lem :
      (messages : List Message) (target : ℕ)
      → All IsMeasured messages
      → (groups : List (List Message)) × (split_messages message_bytes messages target
          ≡ some groups)
        × (concat groups ≡ messages)
        × AreGroups (target_or_default target) groups
  unfolding split_messages put_messages groups_of close_group is_empty AreGroups
  split_messages_lem [] target all = ([], refl, refl, tt)
  split_messages_lem (m ∷ ms) target ((size, k), all) =
      let goal = target_or_default target in
      let (s, run, r) =
        make_group goal m [] ms [] size (just_one goal m size k) (inr (m, refl)) all in
      (r.rest, ground (arith, k, run, r.made, first_put goal m size), r.whole, r.groups)

  put_messages-IsMeasured :
      (target : ℕ) (s : Splitting) (messages : List Message) (after : Splitting)
      → put_messages message_bytes target s messages ≡ some after
      → All IsMeasured messages
  unfolding put_messages
  put_messages-IsMeasured target s [] after h = tt
  put_messages-IsMeasured target s (m ∷ ms) after h = elim (Option-cases (message_bytes m)) [
    | inl e ↦ ground (arith, e, h)
    | inr (size, e) ↦ (
      (size, e),
      put_messages-IsMeasured target (put_message target m size s) ms after (ground (arith, e, h)),
    )
  ]

  split_some-IsMeasured :
      (o : Option Splitting) (messages : List Message) (target : ℕ) (groups : List (List Message))
      → put_messages message_bytes target no_groups messages ≡ o
      → groups_of o ≡ some groups
      → All IsMeasured messages
  unfolding groups_of
  split_some-IsMeasured none messages target groups e h = ground arith
  split_some-IsMeasured (some s) messages target groups e h =
      put_messages-IsMeasured target no_groups messages s e

  value_or : List (List Message) → Option (List (List Message)) → List (List Message)
  value_or d none = d
  value_or d (some groups) = groups

  -- The groups of a split hold the messages in their order.
  pub concat-split_messages :
      (messages : List Message) (target : ℕ) (groups : List (List Message))
      → split_messages message_bytes messages target ≡ some groups
      → concat groups ≡ messages
  unfolding split_messages value_or
  concat-split_messages messages target groups h =
      let all = split_some-IsMeasured _ messages (target_or_default target) groups refl h in
      let (made, run, whole, each) = split_messages_lem messages target all in
      ap concat (ap (value_or []) (sym h ∙ run)) ∙ whole
