-- ===== src/Index/Entry.antt =====
-- index/persist.go: a vector as it is persisted, and a file of such entries.
pub mod RoundTrip
pub mod Torn
pub mod Bounds
use mnemosia.Prelude.{
  ℕ, zero, suc, ◌+◌, ◌*◌, ltb, nat_eq, not, Bool, ◌||◌, List, [], ◌∷◌, ◌++◌, Option, none, some,
  length, take, drop, concat, map, if◌then◌else◌,
}
use mnemosia.Prelude.Exec.{Result, ok, err}
use mnemosia.Bytes.{to_bytes, of_bytes}
use mnemosia.Bytes.Little.{to_little, of_little}
use mnemosia.Seal.Frame.{id_size}

-- A text is its bytes, a float the number of its 32 bits, and an id the number of its bytes.
pub record Entry : Type 0 where
  pub id : ℕ
  pub model : List ℕ
  pub dim : ℕ
  pub vector : List ℕ

-- `failed` carries what the operating system said.
pub data Error : Type 0 where
  other_dimensions : ℕ → ℕ → ℕ → Error
  unsealable failed : ℕ → Error
  other_model : List ℕ → List ℕ → ℕ → Error
  other_width : ℕ → ℕ → Error

unfoldable pub is_removed : Entry → Bool
is_removed e = nat_eq e.dim 0

unfoldable pub removal : ℕ → Entry
removal id = record { id = id; model = []; dim = 0; vector = [] }

-- `Sealer`. What sealing gives depends on random bytes, which the number of the call stands for.
pub record Sealer : Type 0 where
  pub seal : ℕ → List ℕ → Option (List ℕ)
  pub unseal : List ℕ → Option (List ℕ)

unfoldable pub put_entry : Entry → List ℕ
put_entry e =
    to_little 2 (length e.model)
    ++ (e.model
        ++ (to_little 2 e.dim ++ (to_bytes id_size e.id ++ concat (map (to_little 4) e.vector))))

sealed_line : ℕ → Option (List ℕ) → Result Error (List ℕ)
sealed_line id none = err (unsealable id)
sealed_line id (some sealed) = ok (to_little 4 (length sealed) ++ sealed)

module _ (sealer : Sealer) where
  -- `encodeEntry`
  unfoldable pub encode_entry : ℕ → Entry → Result Error (List ℕ)
  unfolding sealed_line
  encode_entry call e =
      if not (nat_eq (length e.vector) e.dim)
      then err (other_dimensions e.id e.dim (length e.vector))
      else sealed_line e.id (sealer.seal call (put_entry e))

-- So many values of four bytes.
unfoldable pub read_values : ℕ → List ℕ → List ℕ
read_values zero bytes = []
read_values (suc n) bytes = of_little (take 4 bytes) ∷ read_values n (drop 4 bytes)

read_vector : List ℕ → ℕ → ℕ → List ℕ → Option Entry
read_vector model dim id rest =
    if not (nat_eq (length rest) (4 * dim))
    then none
    else some (record { id = id; model = model; dim = dim; vector = read_values dim rest })

read_model : ℕ → List ℕ → Option Entry
unfolding read_vector
read_model name_len after =
    if ltb (length after) (name_len + 2 + id_size)
    then none
    else let rest = drop name_len after in
      read_vector (take name_len after) (of_little (take 2 rest))
        (of_bytes (take id_size (drop 2 rest))) (drop id_size (drop 2 rest))

-- `decodeEntry`; nothing is `ErrCorruptIndex`.
unfoldable pub decode_entry : List ℕ → Option Entry
unfolding read_model read_vector
decode_entry body =
    if ltb (length body) 2 then none else read_model (of_little (take 2 body)) (drop 2 body)

module _ (sealer : Sealer) where
  unfoldable pub open_entry : List ℕ → Option Entry
  open_entry sealed = elim (sealer.unseal sealed) [ none ↦ none | some body ↦ decode_entry body ]

  -- The entry at the front of a file and what stands after it, if it is whole.
  unfoldable pub next_entry : List ℕ → Option (Entry × List ℕ)
  next_entry raw =
      let size = of_little (take 4 raw) in
      let after = drop 4 raw in
      if ltb (length raw) 4
      then none
      else if nat_eq size 0 || ltb (length after) size
      then none
      else elim (open_entry (take size after)) [ none ↦ none | some e ↦ some (e, drop size after) ]

  -- `readEntries`, in at most so many rounds.
  unfoldable pub read_within : ℕ → List ℕ → List Entry
  read_within zero raw = []
  read_within (suc fuel) raw = elim (next_entry raw) [
    | none ↦ []
    | some (e, rest) ↦ e ∷ read_within fuel rest
  ]

  -- An entry takes a byte at least, so the rounds suffice. A file that is not there is empty.
  unfoldable pub read_entries : List ℕ → List Entry
  read_entries raw = read_within (length raw) raw
