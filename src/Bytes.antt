-- ===== src/Bytes.antt =====
-- Numbers in bytes, as Go's encoding/binary writes and reads them. A byte slice is a list of
-- numbers below 256.
pub mod Fixed
pub mod Little
pub mod Varint
use mnemosia.Prelude.{
  ℕ, suc, zero, ◌+◌, ◌-◌, ◌*◌, ◌/◌, ◌%◌, ltb, nat_eq, ◌&&◌, List, [], ◌∷◌, ◌++◌, Option, none, some,
  if◌then◌else◌,
}

-- The lowest n bytes of a number, the highest of them first.
unfoldable pub to_bytes : ℕ → ℕ → List ℕ
to_bytes zero v = []
to_bytes (suc n) v = to_bytes n (v / 256) ++ (v % 256) ∷ []

unfoldable pub add_bytes : ℕ → List ℕ → ℕ
add_bytes acc [] = acc
add_bytes acc (b ∷ bytes) = add_bytes (acc * 256 + b) bytes

unfoldable pub of_bytes : List ℕ → ℕ
of_bytes bytes = add_bytes 0 bytes

-- `AppendUvarint`, in at most so many bytes. Ten are enough for 64 bits.
unfoldable pub put_uvarint : ℕ → ℕ → List ℕ
put_uvarint zero v = []
put_uvarint (suc n) v =
    let more = put_uvarint n (v / 128) in if ltb v 128 then v ∷ [] else (v % 128 + 128) ∷ more

abbrev pub max_varint_bytes : ℕ
max_varint_bytes = 10

-- `Uvarint`, with the bytes that may still come, what was read and the weight of the next seven
-- bits. `none` is a slice that is too short or a number past 64 bits.
unfoldable pub read_uvarint : ℕ → ℕ → ℕ → List ℕ → Option (ℕ × List ℕ)
read_uvarint zero acc weight bytes = none
read_uvarint (suc n) acc weight [] = none
read_uvarint (suc n) acc weight (b ∷ bytes) =
    let more = read_uvarint n (acc + (b - 128) * weight) (weight * 128) bytes in
    if ltb b 128
    then if nat_eq n 0 && ltb 1 b then none else some (acc + b * weight, bytes)
    else more

unfoldable pub append_uvarint : ℕ → List ℕ
append_uvarint v = put_uvarint max_varint_bytes v

unfoldable pub uvarint : List ℕ → Option (ℕ × List ℕ)
uvarint bytes = read_uvarint max_varint_bytes 0 1 bytes
