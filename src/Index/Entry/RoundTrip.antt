-- ===== src/Index/Entry/RoundTrip.antt =====
-- An entry whose fields fit the layout reads back as it was, and so does a file of such entries.
use mnemosia.Prelude.{
  ℕ, ◌+◌, ◌*◌, ◌≤◌, ◌<◌, ◌^◌, ◌≡◌, refl, sym, ap, ◌∙◌, List, [], ◌∷◌, ◌++◌, append_assoc, Option,
  none, some, length, length-append, take, drop, take-append, drop-append, concat, map, All, arith,
}
use mnemosia.Prelude.Exec.{ok}
use mnemosia.Bytes.{to_bytes, of_bytes}
use mnemosia.Bytes.Fixed.{capacity, length-to_bytes, of_bytes-to_bytes}
use mnemosia.Bytes.Little.{to_little, of_little, length-to_little, of_little-to_little}
use mnemosia.Seal.Frame.{id_size}
use mnemosia.Index.Entry.{
  Entry, Sealer, put_entry, sealed_line, encode_entry, read_values, read_vector, read_model,
  decode_entry, open_entry, next_entry,
}

-- The widths that `encodeEntry` writes the fields in hold them.
pub record Fits (e : Entry) : Type 0 where
  pub model : length e.model < 2 ^ 16
  pub dim : e.dim < 2 ^ 16
  pub vector : length e.vector ≡ e.dim
  pub id : e.id < capacity id_size
  pub values : All (λ v. v < 2 ^ 32) e.vector

abbrev pub AreBytes : List ℕ → Type 0
AreBytes = All (λ b. b < 256)

-- What is opened is bytes; what is sealed opens to what it was, and takes some
-- bytes, and less than 2^32 of them for a body below 2^20.
pub record IsSound (sealer : Sealer) : Type 0 where
  pub opens :
      (call : ℕ) (body sealed : List ℕ)
      → sealer.seal call body ≡ some sealed
      → sealer.unseal sealed ≡ some body
  pub sized :
      (call : ℕ) (body sealed : List ℕ)
      → sealer.seal call body ≡ some sealed
      → length body < 2 ^ 20
      → (0 < length sealed) × (length sealed < 2 ^ 32)
  pub bytes : (sealed body : List ℕ) → sealer.unseal sealed ≡ some body → AreBytes body

module _ {A : Type 0} where
  pub take_front : (n : ℕ) (xs ys : List A) → length xs ≡ n → take n (xs ++ ys) ≡ xs
  take_front n xs ys h = ap (λ k. take k (xs ++ ys)) (sym h) ∙ take-append xs ys

  pub drop_front : (n : ℕ) (xs ys : List A) → length xs ≡ n → drop n (xs ++ ys) ≡ ys
  drop_front n xs ys h = ap (λ k. drop k (xs ++ ys)) (sym h) ∙ drop-append xs ys

module _ (values : List ℕ) where
  abbrev written : List ℕ
  written = concat (map (to_little 4) values)

length-values : (values : List ℕ) → length (written values) ≡ 4 * length values
length-values [] = refl
length-values (v ∷ values) = omega (
  arith,
  length-append (to_little 4 v) (written values),
  length-to_little 4 v,
  length-values values,
)

read_values-written :
    (values : List ℕ)
    → All (λ v. v < 2 ^ 32) values
    → read_values (length values) (written values) ≡ values
unfolding read_values
read_values-written [] h = refl
read_values-written (v ∷ values) (one, all) =
    let front = take_front 4 (to_little 4 v) (written values) (length-to_little 4 v) in
    let back = drop_front 4 (to_little 4 v) (written values) (length-to_little 4 v) in
    ground (arith, front, back, of_little-to_little 4 v one, read_values-written values all)

read_model-append :
    (n : ℕ) (model rest : List ℕ)
    → length model ≡ n
    → 2 + id_size ≤ length rest
    → read_model n (model ++ rest)
      ≡ read_vector model
          (of_little (take 2 rest))
          (of_bytes (take id_size (drop 2 rest)))
          (drop id_size (drop 2 rest))
unfolding read_model
read_model-append n model rest h k =
    ground (arith, length-append model rest, take_front n model rest h, drop_front n model rest h)

decode_entry-append :
    (width rest : List ℕ)
    → length width ≡ 2
    → decode_entry (width ++ rest) ≡ read_model (of_little width) rest
unfolding decode_entry
decode_entry-append width rest h =
    ground (arith, length-append width rest, take_front 2 width rest h, drop_front 2 width rest h)

read_vector-written :
    (e : Entry) → Fits e → read_vector e.model e.dim e.id (written e.vector) ≡ some e
unfolding read_vector
read_vector-written e h = ground (
  arith,
  length-values e.vector,
  h.vector,
  ap (λ n. read_values n (written e.vector)) (sym h.vector),
  read_values-written e.vector h.values,
)

read_back :
    (model width id values : List ℕ)
    → length width ≡ 2
    → length id ≡ id_size
    → read_model (length model) (model ++ (width ++ (id ++ values)))
      ≡ read_vector model (of_little width) (of_bytes id) values
read_back model width id values h k = ground (
  arith,
  read_model-append (length model) model (width ++ (id ++ values)) refl,
  length-append width (id ++ values),
  length-append id values,
  take_front 2 width (id ++ values) h,
  drop_front 2 width (id ++ values) h,
  take_front id_size id values k,
  drop_front id_size id values k,
)

pub decode_entry-put_entry : (e : Entry) → Fits e → decode_entry (put_entry e) ≡ some e
unfolding put_entry
decode_entry-put_entry e h =
    decode_entry-append (to_little 2 (length e.model)) _ (length-to_little 2 (length e.model))
    ∙ ap
        (λ n.
          read_model n
            (e.model ++ (to_little 2 e.dim ++ (to_bytes id_size e.id ++ written e.vector))))
        (of_little-to_little 2 (length e.model) h.model)
    ∙ read_back e.model (to_little 2 e.dim) (to_bytes id_size e.id) (written e.vector)
        (length-to_little 2 e.dim) (length-to_bytes id_size e.id)
    ∙ ap (λ n. read_vector e.model n (of_bytes (to_bytes id_size e.id)) (written e.vector))
        (of_little-to_little 2 e.dim h.dim)
    ∙ ap (λ n. read_vector e.model e.dim n (written e.vector)) (of_bytes-to_bytes id_size e.id h.id)
    ∙ read_vector-written e h

length-put_entry :
    (e : Entry) → length (put_entry e) ≡ 4 + id_size + length e.model + 4 * length e.vector
unfolding put_entry
length-put_entry e = omega (
  arith,
  length-append (to_little 2 (length e.model))
      (e.model ++ (to_little 2 e.dim ++ (to_bytes id_size e.id ++ written e.vector))),
  length-append e.model (to_little 2 e.dim ++ (to_bytes id_size e.id ++ written e.vector)),
  length-append (to_little 2 e.dim) (to_bytes id_size e.id ++ written e.vector),
  length-append (to_bytes id_size e.id) (written e.vector),
  length-to_little 2 (length e.model),
  length-to_little 2 e.dim,
  length-to_bytes id_size e.id,
  length-values e.vector,
)

put_entry-bound : (e : Entry) → Fits e → length (put_entry e) < 2 ^ 20
put_entry-bound e h = omega (arith, length-put_entry e, h.model, h.dim, h.vector)

module _ (sealer : Sealer) where
  -- The bytes are the prefix of the size and the sealed entry.
  pub record IsLine (e : Entry) (line : List ℕ) : Type 0 where
    pub sealed : List ℕ
    pub is : line ≡ to_little 4 (length sealed) ++ sealed
    pub some_bytes : 0 < length sealed
    pub bounded : length sealed < 2 ^ 32
    pub opens : open_entry sealer sealed ≡ some e

  sealed-IsLine :
      (call : ℕ) (e : Entry) (line : List ℕ) (o : Option (List ℕ))
      → IsSound sealer
      → Fits e
      → sealer.seal call (put_entry e) ≡ o
      → sealed_line e.id o ≡ ok line
      → IsLine e line
  unfolding sealed_line open_entry
  sealed-IsLine call e line none sound fits seal made = ground arith
  sealed-IsLine call e line (some sealed) sound fits seal made = record {
    sealed = sealed;
    is = ground (arith, made);
    some_bytes = (sound.sized call (put_entry e) sealed seal (put_entry-bound e fits)).0;
    bounded = (sound.sized call (put_entry e) sealed seal (put_entry-bound e fits)).1;
    opens =
        ground (arith, sound.opens call (put_entry e) sealed seal, decode_entry-put_entry e fits);
  }

  pub encode_entry-IsLine :
      (call : ℕ) (e : Entry) (line : List ℕ)
      → IsSound sealer
      → Fits e
      → encode_entry sealer call e ≡ ok line
      → IsLine e line
  unfolding encode_entry
  encode_entry-IsLine call e line sound fits made =
      sealed-IsLine call e line (sealer.seal call (put_entry e)) sound fits refl
        (ground (arith, made, fits.vector))

  open_front :
      (size : ℕ) (sealed rest : List ℕ) (e : Entry)
      → length sealed ≡ size
      → open_entry sealer sealed ≡ some e
      → open_entry sealer (take size (sealed ++ rest)) ≡ some e
  open_front size sealed rest e h o = ap (open_entry sealer) (take_front size sealed rest h) ∙ o

  pub next_entry-IsLine :
      (e : Entry) (line rest : List ℕ)
      → IsLine e line
      → next_entry sealer (line ++ rest) ≡ some (e, rest)
  unfolding next_entry
  next_entry-IsLine e line rest h =
      let size = to_little 4 (length h.sealed) in
      let wide = length-to_little 4 (length h.sealed) in
      ap (λ l. next_entry sealer (l ++ rest)) h.is
      ∙ ap (next_entry sealer) (append_assoc size h.sealed rest)
      ∙ ground (
        arith,
        h.some_bytes,
        take_front 4 size (h.sealed ++ rest) wide,
        drop_front 4 size (h.sealed ++ rest) wide,
        of_little-to_little 4 (length h.sealed) h.bounded,
        length-append size (h.sealed ++ rest),
        length-append h.sealed rest,
        drop_front (length h.sealed) h.sealed rest refl,
        open_front (length h.sealed) h.sealed rest e refl h.opens,
      )
