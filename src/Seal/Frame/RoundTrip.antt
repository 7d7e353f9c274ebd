-- ===== src/Seal/Frame/RoundTrip.antt =====
-- A frame is read back, whatever stands after it.
use mnemosia.Prelude.{
  ℕ, ◌+◌, ◌<◌, ◌^◌, ◌≡◌, refl, sym, ap, ◌∙◌, List, [], ◌++◌, append_assoc, Option, none, some,
  string_keys, length, length-append, take, drop, take-append, drop-append, arith,
}
use text.Mathlib.TextEquality.{eq_iff}
use mnemosia.Prelude.Exec.{Result, ok, err}
use mnemosia.Bytes.{to_bytes, append_uvarint}
use mnemosia.Bytes.Fixed.{length-to_bytes, of_bytes-to_bytes}
use mnemosia.Bytes.Varint.{uvarint-append_uvarint}
use mnemosia.Record.Kind.{Kind}
use mnemosia.Seal.Frame.{
  Error, Frame, id_size, kind_code, kind_from_code, frame_body, frame_record, read_identity,
  read_body, unframe, cut_frame, frame_overhead,
}

kind_from_code-kind_code :
    (kind : Kind) (code : ℕ) → kind_code kind ≡ some code → kind_from_code code ≡ some kind
unfolding kind_code kind_from_code
kind_from_code-kind_code kind code h =
    ground (arith, eq_iff kind "memory", eq_iff kind "session", eq_iff kind "chunk")

length-frame_body :
    (code id : ℕ) (sealed : List ℕ)
    → length (frame_body code id sealed) ≡ 5 + id_size + length sealed
unfolding frame_body
length-frame_body code id sealed =
    omega (arith, length-append (to_bytes id_size id) sealed, length-to_bytes id_size id)

take-to_bytes :
    (id : ℕ) (sealed : List ℕ) → take id_size (to_bytes id_size id ++ sealed) ≡ to_bytes id_size id
take-to_bytes id sealed =
    ap (λ n. take n (to_bytes id_size id ++ sealed)) (sym (length-to_bytes id_size id))
    ∙ take-append (to_bytes id_size id) sealed

drop-to_bytes : (id : ℕ) (sealed : List ℕ) → drop id_size (to_bytes id_size id ++ sealed) ≡ sealed
drop-to_bytes id sealed =
    ap (λ n. drop n (to_bytes id_size id ++ sealed)) (sym (length-to_bytes id_size id))
    ∙ drop-append (to_bytes id_size id) sealed

read_body-frame_body :
    (kind : Kind) (code id : ℕ) (sealed : List ℕ)
    → kind_code kind ≡ some code
    → id < 2 ^ 128
    → read_body (frame_body code id sealed) ≡ ok (record { kind = kind; id = id; sealed = sealed })
unfolding read_body frame_body read_identity
read_body-frame_body kind code id sealed h k = ground (
  arith,
  kind_from_code-kind_code kind code h,
  take-to_bytes id sealed,
  drop-to_bytes id sealed,
  of_bytes-to_bytes id_size id k,
  length-append (to_bytes id_size id) sealed,
  length-to_bytes id_size id,
)

cut_frame-append :
    (body rest : List ℕ) (frame : Frame)
    → read_body body ≡ ok frame
    → cut_frame (length body) (body ++ rest) ≡ ok (frame, rest)
unfolding cut_frame
cut_frame-append body rest frame h = ground (arith, take-append body rest, drop-append body rest)

unframe-body :
    (body rest : List ℕ) (frame : Frame)
    → length body < 2 ^ 64
    → read_body body ≡ ok frame
    → unframe ((append_uvarint (length body) ++ body) ++ rest) ≡ ok (frame, rest)
unfolding unframe
unframe-body body rest frame h k =
    ap unframe (append_assoc (append_uvarint (length body)) body rest)
    ∙ ground (
      arith,
      uvarint-append_uvarint (length body) (body ++ rest) h,
      cut_frame-append body rest frame k,
      length-append body rest,
    )

module _ (kind : Kind) (id : ℕ) (sealed : List ℕ) (bytes : List ℕ)
    (made : frame_record kind id sealed ≡ ok bytes) where
  bytes_in : Result Error (List ℕ) → List ℕ
  bytes_in (ok bytes) = bytes
  bytes_in (err e) = []

  framed :
      (code : Option ℕ)
      → kind_code kind ≡ code
      → (code : ℕ) × (kind_code kind ≡ some code)
        × (bytes ≡ append_uvarint (length (frame_body code id sealed)) ++ frame_body code id sealed)
  unfolding frame_record bytes_in
  framed none h = ground arith
  framed (some code) h = (code, h, ap bytes_in (sym made) ∙ ground (arith, h))

  -- A record of one of the three kinds, with an id of 16 bytes and fewer than 2^63 sealed bytes, is read
  -- back whole from its frame, with what stands after the frame.
  pub unframe-frame_record :
      (rest : List ℕ)
      → id < 2 ^ 128
      → length sealed < 2 ^ 63
      → unframe (bytes ++ rest) ≡ ok (record { kind = kind; id = id; sealed = sealed }, rest)
  unframe-frame_record rest h k =
      let (code, c, e) = framed (kind_code kind) refl in
      ap (λ b. unframe (b ++ rest)) e
      ∙ unframe-body (frame_body code id sealed) rest _
          (omega (arith, length-frame_body code id sealed))
          (read_body-frame_body kind code id sealed c h)

  -- A frame is longer than its sealed body by what `frame_overhead` says.
  pub length-frame_record : length bytes ≡ length sealed + frame_overhead (length sealed)
  unfolding frame_overhead
  length-frame_record =
      let (code, c, e) = framed (kind_code kind) refl in
      let body = frame_body code id sealed in
      let size : length body ≡ 5 + id_size + length sealed = length-frame_body code id sealed in
      ap length e
      ∙ omega (
        arith,
        length-append (append_uvarint (length body)) body,
        size,
        ap (λ n. length (append_uvarint n)) size,
      )
