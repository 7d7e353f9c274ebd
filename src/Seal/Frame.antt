-- ===== src/Seal/Frame.antt =====
-- seal/frame.go: a sealed record with its identity, and a blob of several.
pub mod RoundTrip
pub mod Walk
use mnemosia.Prelude.{
  ℕ, zero, suc, ◌+◌, ◌-◌, ltb, nat_eq, not, ◌||◌, List, [], ◌∷◌, ◌++◌, Option, none, some, String,
  ◌==◌, string_keys, length, take, drop, if◌then◌else◌,
}
use mnemosia.Prelude.Exec.{Result, ok, err}
use mnemosia.Bytes.{to_bytes, of_bytes, append_uvarint, uvarint}
use mnemosia.Record.Kind.{Kind, kind_memory, kind_session, kind_chunk}

abbrev frame_version : ℕ
frame_version = 1

abbrev pub id_size : ℕ
id_size = 16

abbrev magic_0 : ℕ
magic_0 = b'M'

abbrev magic_1 : ℕ
magic_1 = b'n'

-- All but the first are an `ErrCorrupt` with its own text.
pub data Error : Type 0 where
  unknown_kind : Kind → Error
  unreadable_length too_short header_truncated bad_magic id_truncated : Error
  other_version unknown_code other_id_size : ℕ → Error

-- A record id is its 16 bytes read as a number.
pub record Frame : Type 0 where
  pub kind : Kind
  pub id : ℕ
  pub sealed : List ℕ

unfoldable pub kind_code : Kind → Option ℕ
kind_code kind =
    if kind == kind_memory
    then some 1
    else if kind == kind_session
    then some 2
    else if kind == kind_chunk
    then some 3
    else none

unfoldable pub kind_from_code : ℕ → Option Kind
kind_from_code code =
    if nat_eq code 1
    then some kind_memory
    else if nat_eq code 2
    then some kind_session
    else if nat_eq code 3
    then some kind_chunk
    else none

unfoldable pub frame_body : ℕ → ℕ → List ℕ → List ℕ
frame_body code id sealed =
    magic_0 ∷ magic_1 ∷ frame_version ∷ code ∷ id_size ∷ (to_bytes id_size id ++ sealed)

-- `FrameRecord`
unfoldable pub frame_record : Kind → ℕ → List ℕ → Result Error (List ℕ)
frame_record kind id sealed = elim (kind_code kind) [
  | none ↦ err (unknown_kind kind)
  | some code ↦ let body = frame_body code id sealed in ok (append_uvarint (length body) ++ body)
]

-- The body of a frame from its kind on, where the header is whole.
unfoldable pub read_identity : ℕ → ℕ → List ℕ → Result Error Frame
read_identity code id_len after = elim (kind_from_code code) [
  | none ↦ err (unknown_code code)
  | some kind ↦
      if ltb (length after) id_len
      then err id_truncated
      else if not (nat_eq id_len id_size)
      then err (other_id_size id_len)
      else ok
          (record { kind = kind; id = of_bytes (take id_len after); sealed = drop id_len after })
]

unfoldable pub read_body : List ℕ → Result Error Frame
read_body (m ∷ n ∷ version ∷ code ∷ id_len ∷ after) =
    if not (nat_eq m magic_0) || not (nat_eq n magic_1)
    then err bad_magic
    else if not (nat_eq version frame_version)
    then err (other_version version)
    else read_identity code id_len after
read_body _ = err header_truncated

cut_frame : ℕ → List ℕ → Result Error (Frame × List ℕ)
cut_frame size after = elim (read_body (take size after)) [
  | ok frame ↦ ok (frame, drop size after)
  | err e ↦ err e
]

-- `Unframe`
unfoldable pub unframe : List ℕ → Result Error (Frame × List ℕ)
unfolding cut_frame
unframe bytes = elim (uvarint bytes) [
  | none ↦ err unreadable_length
  | some (size, after) ↦ if ltb (length after) size then err too_short else cut_frame size after
]

-- `Frames`, in at most so many rounds: what was recovered, and why it stopped before the end.
unfoldable pub frames_within : ℕ → List Frame → List ℕ → List Frame × Option Error
frames_within fuel out [] = (out, none)
frames_within zero out (b ∷ bytes) = (out, some unreadable_length)
frames_within (suc fuel) out (b ∷ bytes) = elim (unframe (b ∷ bytes)) [
  | ok (frame, rest) ↦ frames_within fuel (out ++ frame ∷ []) rest
  | err e ↦ (out, some e)
]

-- A frame takes a byte at least, so the rounds suffice.
unfoldable pub frames : List ℕ → List Frame × Option Error
frames blob = frames_within (length blob) [] blob

-- `FrameOverhead`
unfoldable pub frame_overhead : ℕ → ℕ
frame_overhead sealed_len =
    let body = 5 + id_size + sealed_len in length (append_uvarint body) + body - sealed_len
