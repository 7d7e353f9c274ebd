-- ===== src/Index/Entry/Torn.antt =====
-- A file of entries with a piece of a line after them, as an append that failed leaves it.
use mnemosia.Prelude.{
  ℕ, suc, zero, ◌+◌, ◌-◌, ◌≤◌, ◌<◌, ◌≡◌, refl, sym, ap, subst, ◌∙◌, List, [], ◌∷◌, ◌++◌, append-nil,
  append_assoc, none, some, length, length-append, length-take, take, arith,
}
use native.Mathlib.Decide.{dec_lt}
use mnemosia.Bytes.Little.{to_little, of_little, length-to_little, of_little-to_little}
use mnemosia.Index.Entry.{Entry, Sealer, next_entry, read_within, read_entries}
use mnemosia.Index.Entry.RoundTrip.{IsLine, take_front, drop_front, next_entry-IsLine}

module _ {A : Type 0} where
  take_shorter :
      (n : ℕ) (xs ys : List A) → length xs ≤ n → take n (xs ++ ys) ≡ xs ++ take (n - length xs) ys
  take_shorter n [] ys h = ap (λ k. take k ys) (omega arith)
  take_shorter zero (x ∷ xs) ys h = absurd (omega arith)
  take_shorter (suc n) (x ∷ xs) ys h =
      ap (◌∷◌ x) (take_shorter n xs ys (omega arith))
      ∙ ap (λ k. x ∷ (xs ++ take k ys)) (omega arith)

module _ (sealer : Sealer) where
  next_entry_short : (raw : List ℕ) → length raw < 4 → next_entry sealer raw ≡ none
  unfolding next_entry
  next_entry_short raw h = ground arith

  next_entry_cut :
      (size part : List ℕ)
      → length size ≡ 4
      → length part < of_little size
      → next_entry sealer (size ++ part) ≡ none
  unfolding next_entry
  next_entry_cut size part h k =
      ground (arith, length-append size part, take_front 4 size part h, drop_front 4 size part h)

  -- No entry is read from a piece of a line.
  pub next_entry-torn :
      (e : Entry) (line : List ℕ) (n : ℕ)
      → IsLine sealer e line
      → n < length line
      → next_entry sealer (take n line) ≡ none
  next_entry-torn e line n h cut = elim (dec_lt n 4) [
    | yes short ↦ next_entry_short (take n line) (omega (arith, length-take n line (omega arith)))
    | no long ↦
        let size = to_little 4 (length h.sealed) in
        let wide = length-to_little 4 (length h.sealed) in
        let total : length line ≡ length size + length h.sealed =
          ap length h.is ∙ length-append size h.sealed in
        ap (λ l. next_entry sealer (take n l)) h.is
        ∙ ap (next_entry sealer) (take_shorter n size h.sealed (omega arith))
        ∙ next_entry_cut size (take (n - length size) h.sealed) wide (
            omega (
              arith,
              of_little-to_little 4 (length h.sealed) h.bounded,
              length-take (n - length size) h.sealed (omega arith),
            ))
  ]

  -- The bytes are the lines of the entries.
  pub data Holds : List Entry → List ℕ → Type 0 where
    no_entry : Holds [] []
    one_more :
        (e : Entry) (es : List Entry) (line rest : List ℕ)
        → IsLine sealer e line
        → Holds es rest
        → Holds (e ∷ es) (line ++ rest)

  pub Holds-append :
      {es fs : List Entry} {bytes more : List ℕ}
      → Holds es bytes
      → Holds fs more
      → Holds (es ++ fs) (bytes ++ more)
  Holds-append no_entry k = k
  Holds-append {fs = fs} {more = more} (one_more e es line rest h hs) k =
      subst (Holds (e ∷ (es ++ fs))) (sym (append_assoc line rest more))
        (one_more e (es ++ fs) line (rest ++ more) h (Holds-append hs k))

  positive : (e : Entry) (line : List ℕ) → IsLine sealer e line → 0 < length line
  positive e line h =
      omega (
        arith,
        ap length h.is,
        length-append (to_little 4 (length h.sealed)) h.sealed,
        h.some_bytes,
      )

  read_step :
      (fuel : ℕ) (raw rest : List ℕ) (e : Entry)
      → next_entry sealer raw ≡ some (e, rest)
      → read_within sealer (suc fuel) raw ≡ e ∷ read_within sealer fuel rest
  unfolding read_within
  read_step fuel raw rest e h = ground arith

  read_stop :
      (fuel : ℕ) (raw : List ℕ) → next_entry sealer raw ≡ none → read_within sealer fuel raw ≡ []
  unfolding read_within
  read_stop zero raw h = refl
  read_stop (suc fuel) raw h = ground arith

  read_within-Holds :
      (fuel : ℕ) (es : List Entry) (bytes tail : List ℕ)
      → Holds es bytes
      → next_entry sealer tail ≡ none
      → length bytes ≤ fuel
      → read_within sealer fuel (bytes ++ tail) ≡ es
  read_within-Holds fuel es bytes tail no_entry torn h = read_stop fuel tail torn
  read_within-Holds zero _ _ tail (one_more e es line rest l hs) torn h =
      absurd (omega (arith, length-append line rest, positive e line l))
  read_within-Holds (suc fuel) _ _ tail (one_more e es line rest l hs) torn h =
      ap (read_within sealer (suc fuel)) (append_assoc line rest tail)
      ∙ read_step fuel (line ++ (rest ++ tail)) (rest ++ tail) e
          (next_entry-IsLine sealer e line (rest ++ tail) l)
      ∙ ap (◌∷◌ e) (
          read_within-Holds fuel es rest tail hs torn
            (omega (arith, length-append line rest, positive e line l)))

  -- Whatever stands after the lines, if no entry reads from its front, the entries come back.
  pub read_entries-Holds :
      (es : List Entry) (bytes tail : List ℕ)
      → Holds es bytes
      → next_entry sealer tail ≡ none
      → read_entries sealer (bytes ++ tail) ≡ es
  unfolding read_entries
  read_entries-Holds es bytes tail hs torn =
      read_within-Holds (length (bytes ++ tail)) es bytes tail hs torn
        (omega (arith, length-append bytes tail))

  next_entry_nothing : next_entry sealer [] ≡ none
  next_entry_nothing = next_entry_short [] (omega arith)

  pub read_entries_whole :
      (es : List Entry) (bytes : List ℕ) → Holds es bytes → read_entries sealer bytes ≡ es
  read_entries_whole es bytes hs =
      ap (read_entries sealer) (sym (append-nil bytes))
      ∙ read_entries-Holds es bytes [] hs next_entry_nothing
