-- ===== src/Index/Entry/Bounds.antt =====
-- What decodes fits the layout, if it is bytes.
use mnemosia.Prelude.{
  ℕ, suc, zero, ◌+◌, ◌*◌, ◌<◌, ◌^◌, ◌≡◌, refl, subst, List, [], ◌∷◌, Option, none, some, length,
  take, drop, All, arith,
}
use mnemosia.Bytes.{add_bytes, of_bytes}
use mnemosia.Bytes.Fixed.{capacity}
use mnemosia.Bytes.Little.{of_little}
use mnemosia.Seal.Frame.{id_size}
use mnemosia.Index.Entry.{
  Entry, read_values, read_vector, read_model, decode_entry, Sealer, open_entry, next_entry,
  read_within, read_entries,
}
use mnemosia.Index.Entry.RoundTrip.{Fits, AreBytes, IsSound}

AreBytes-take : (n : ℕ) (bytes : List ℕ) → AreBytes bytes → AreBytes (take n bytes)
AreBytes-take zero bytes h = tt
AreBytes-take (suc n) [] h = tt
AreBytes-take (suc n) (b ∷ bytes) h = (h.0, AreBytes-take n bytes h.1)

AreBytes-drop : (n : ℕ) (bytes : List ℕ) → AreBytes bytes → AreBytes (drop n bytes)
AreBytes-drop zero bytes h = h
AreBytes-drop (suc n) [] h = tt
AreBytes-drop (suc n) (b ∷ bytes) h = AreBytes-drop n bytes h.1

of_little-bound : (n : ℕ) (bytes : List ℕ) → AreBytes bytes → of_little (take n bytes) < capacity n
unfolding of_little
of_little-bound zero bytes h = omega arith
of_little-bound (suc n) [] h = omega (arith, of_little-bound n [] tt)
of_little-bound (suc n) (b ∷ bytes) h = omega (arith, of_little-bound n bytes h.1, h.0)

length-take-bound : (n : ℕ) (bytes : List ℕ) → length (take n bytes) < suc n
length-take-bound zero bytes = omega arith
length-take-bound (suc n) [] = omega arith
length-take-bound (suc n) (b ∷ bytes) = omega (arith, length-take-bound n bytes)

capacity_pos : (n : ℕ) → 0 < capacity n
capacity_pos zero = omega arith
capacity_pos (suc n) = omega (arith, capacity_pos n)

next_digit : (acc b c x : ℕ) → b < 256 → x < (acc * 256 + b + 1) * c → x < (acc + 1) * (256 * c)
next_digit acc b c x h k = grind arith

grown : (acc c : ℕ) → 0 < c → acc < (acc + 1) * (256 * c)
grown acc c h = grind arith

add_bytes-bound :
    (n acc : ℕ) (bytes : List ℕ)
    → AreBytes bytes
    → add_bytes acc (take n bytes) < (acc + 1) * capacity n
unfolding add_bytes
add_bytes-bound zero acc bytes h = omega arith
add_bytes-bound (suc n) acc [] h = grown acc (capacity n) (capacity_pos n)
add_bytes-bound (suc n) acc (b ∷ bytes) h =
    next_digit acc b (capacity n) _ h.0 (add_bytes-bound n (acc * 256 + b) bytes h.1)

read_values-bound :
    (n : ℕ) (bytes : List ℕ)
    → AreBytes bytes
    → (length (read_values n bytes) ≡ n) × All (λ v. v < 2 ^ 32) (read_values n bytes)
unfolding read_values
read_values-bound zero bytes h = (refl, tt)
read_values-bound (suc n) bytes h =
    let rest = read_values-bound n (drop 4 bytes) (AreBytes-drop 4 bytes h) in
    (omega (arith, rest.0), (of_little-bound 4 bytes h, rest.1))

module _ (model rest : List ℕ) (dim id : ℕ) where
  read_vector-Fits :
      (e : Entry)
      → length model < 2 ^ 16
      → dim < 2 ^ 16
      → id < capacity id_size
      → AreBytes rest
      → read_vector model dim id rest ≡ some e
      → Fits e
  unfolding read_vector
  read_vector-Fits e h k l bytes made =
      let values = read_values-bound dim rest bytes in
      subst Fits (entry_of made)
        (record { model = h; dim = k; vector = values.0; id = l; values = values.1 })
    where
      entry_of :
          read_vector model dim id rest ≡ some e
          → record { id = id; model = model; dim = dim; vector = read_values dim rest } ≡ e
      entry_of made = ground arith

of_bytes-bound : (n : ℕ) (bytes : List ℕ) → AreBytes bytes → of_bytes (take n bytes) < capacity n
unfolding of_bytes
of_bytes-bound n bytes h = omega (arith, add_bytes-bound n 0 bytes h)

read_model-Fits :
    (n : ℕ) (after : List ℕ) (e : Entry)
    → n < 2 ^ 16
    → AreBytes after
    → read_model n after ≡ some e
    → Fits e
unfolding read_model
read_model-Fits n after e h bytes made =
    let rest = AreBytes-drop n after bytes in
    let later = AreBytes-drop 2 (drop n after) rest in
    read_vector-Fits (take n after) (drop id_size (drop 2 (drop n after)))
      (of_little (take 2 (drop n after))) (of_bytes (take id_size (drop 2 (drop n after)))) e
      (omega (arith, length-take-bound n after)) (of_little-bound 2 (drop n after) rest)
      (of_bytes-bound id_size (drop 2 (drop n after)) later) (AreBytes-drop id_size _ later)
      (ground (arith, made))

decode_entry-Fits :
    (body : List ℕ) (e : Entry) → AreBytes body → decode_entry body ≡ some e → Fits e
unfolding decode_entry
decode_entry-Fits body e bytes made =
    read_model-Fits (of_little (take 2 body)) (drop 2 body) e (of_little-bound 2 body bytes)
      (AreBytes-drop 2 body bytes) (ground (arith, made))

module _ (sealer : Sealer) (sound : IsSound sealer) where
  open_entry-Fits : (sealed : List ℕ) (e : Entry) → open_entry sealer sealed ≡ some e → Fits e
  unfolding open_entry
  open_entry-Fits sealed e made = opened (sealer.unseal sealed) refl made
    where
      opened :
          (o : Option (List ℕ))
          → sealer.unseal sealed ≡ o
          → elim o as (λ _. Option Entry) [ none ↦ none | some body ↦ decode_entry body ] ≡ some e
          → Fits e
      opened none h made = ground arith
      opened (some body) h made = decode_entry-Fits body e (sound.bytes sealed body h) made

  next_entry-Fits :
      (raw rest : List ℕ) (e : Entry) → next_entry sealer raw ≡ some (e, rest) → Fits e
  unfolding next_entry
  next_entry-Fits raw rest e made =
      open_entry-Fits (take (of_little (take 4 raw)) (drop 4 raw)) e (ground (arith, made))

  read_within-Fits : (fuel : ℕ) (raw : List ℕ) → All Fits (read_within sealer fuel raw)
  unfolding read_within
  read_within-Fits zero raw = tt
  read_within-Fits (suc fuel) raw = read (next_entry sealer raw) refl (read_within-Fits fuel)
    where
      read :
          (o : Option (Entry × List ℕ))
          → next_entry sealer raw ≡ o
          → ((rest : List ℕ) → All Fits (read_within sealer fuel rest))
          → All Fits (elim o as (λ _. List Entry) [
            | none ↦ []
            | some (e, rest) ↦ e ∷ read_within sealer fuel rest
          ])
      read none h all = tt
      read (some (e, rest)) h all = (next_entry-Fits raw rest e h, all rest)

  pub read_entries-Fits : (raw : List ℕ) → All Fits (read_entries sealer raw)
  unfolding read_entries
  read_entries-Fits raw = read_within-Fits (length raw) raw
