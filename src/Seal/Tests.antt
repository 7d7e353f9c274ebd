-- ===== src/Seal/Tests.antt =====
-- Runs of seal/ on small records, and its theorems at them.
use mnemosia.Prelude.{ℕ, ◌≡◌, refl, List, [], ◌∷◌, ◌++◌, map, concat, arith}
use mnemosia.Prelude.Exec.{ok}
use mnemosia.Record.Kind.{kind_session}
use mnemosia.Bytes.{to_bytes, append_uvarint, put_uvarint}
use mnemosia.Seal.Frame.{
  Frame, kind_code, frame_body, frame_record, unframe, frames, frame_overhead,
}
use mnemosia.Seal.Frame.RoundTrip.{unframe-frame_record}
use mnemosia.Seal.Frame.Walk.{IsFramed, frames-concat}

abbrev header : List ℕ
header = 23 ∷ 77 ∷ 110 ∷ 1 ∷ 2 ∷ 16 ∷ []

abbrev id_bytes : List ℕ
id_bytes = 0 ∷ 0 ∷ 0 ∷ 0 ∷ 0 ∷ 0 ∷ 0 ∷ 0 ∷ 0 ∷ 0 ∷ 0 ∷ 0 ∷ 0 ∷ 0 ∷ 1 ∷ 7 ∷ []

abbrev session : Frame
session = record { kind = kind_session; id = 263; sealed = 8 ∷ 9 ∷ [] }

abbrev session_bytes : List ℕ
session_bytes = header ++ id_bytes ++ 8 ∷ 9 ∷ []

session_made : frame_record kind_session 263 (8 ∷ 9 ∷ []) ≡ ok session_bytes
unfolding frame_record kind_code append_uvarint put_uvarint frame_body to_bytes
session_made = refl

session-IsFramed : IsFramed (session, session_bytes)
session-IsFramed = record { made = session_made; id_fits = omega arith; body_fits = omega arith }

unframe-frame_record_example : unframe (session_bytes ++ 5 ∷ []) ≡ ok (session, 5 ∷ [])
unframe-frame_record_example =
    unframe-frame_record kind_session 263 (8 ∷ 9 ∷ []) session_bytes session_made (5 ∷ [])
      (omega arith) (omega arith)

-- Two frames, and the first bytes of a third.
abbrev damaged : List ℕ
damaged = header

frames-concat_example :
    frames (
      concat (
        map
          (λ (i : Frame × List ℕ). i.1)
          ((session, session_bytes) ∷ (session, session_bytes) ∷ []))
      ++ damaged)
    ≡ (session ∷ session ∷ (frames damaged).0, (frames damaged).1)
frames-concat_example =
    frames-concat ((session, session_bytes) ∷ (session, session_bytes) ∷ []) damaged
      (session-IsFramed, (session-IsFramed, tt))

overhead : frame_overhead 2 ≡ 22
unfolding frame_overhead append_uvarint put_uvarint
overhead = refl
