-- ===== src/Seal/Frame/Walk.antt =====
-- A blob of several frames, with anything after them.
use mnemosia.Prelude.{
  ℕ, zero, suc, ◌+◌, ◌-◌, ◌*◌, ◌<◌, ◌≤◌, ◌^◌, ◌≡◌, refl, sym, ap, ◌∙◌, List, [], ◌∷◌, ◌++◌,
  append-nil, append_assoc, some, Option-cases, inl, inr, length, length-drop, map, concat, All,
  subst, arith,
}
use mnemosia.Prelude.Exec.{ok, Result-cases}
use mnemosia.Bytes.{read_uvarint, uvarint}
use mnemosia.Seal.Frame.{Frame, frame_record, cut_frame, unframe, frames_within, frames}
use mnemosia.Seal.Frame.RoundTrip.{unframe-frame_record}

length-read_uvarint :
    (n acc weight : ℕ) (bytes : List ℕ) (v : ℕ) (rest : List ℕ)
    → read_uvarint n acc weight bytes ≡ some (v, rest)
    → length rest < length bytes
unfolding read_uvarint
length-read_uvarint zero acc weight bytes v rest h = ground arith
length-read_uvarint (suc n) acc weight [] v rest h = ground arith
length-read_uvarint (suc n) acc weight (b ∷ bytes) v rest h =
    ground (arith, length-read_uvarint n (acc + (b - 128) * weight) (weight * 128) bytes v rest)

length-cut_frame :
    (size : ℕ) (after : List ℕ) (frame : Frame) (rest : List ℕ)
    → cut_frame size after ≡ ok (frame, rest)
    → length rest ≤ length after
unfolding cut_frame
length-cut_frame size after frame rest h = ground (arith, length-drop size after)

length-unframe :
    (bytes : List ℕ) (frame : Frame) (rest : List ℕ)
    → unframe bytes ≡ ok (frame, rest)
    → length rest < length bytes
unfolding unframe uvarint
length-unframe bytes frame rest h = elim (Option-cases (uvarint bytes)) [
  | inl e ↦ ground (arith, e)
  | inr ((size, after), e) ↦ ground (
    arith,
    e,
    length-read_uvarint 10 0 1 bytes size after e,
    length-cut_frame size after frame rest,
  )
]

-- More rounds than there are bytes change nothing: the walk ends at the end of the blob or at a
-- frame that does not read.
enough_rounds :
    (f g : ℕ) (out : List Frame) (bytes : List ℕ)
    → length bytes ≤ f
    → length bytes ≤ g
    → frames_within f out bytes ≡ frames_within g out bytes
unfolding frames_within
enough_rounds zero zero out bytes h k = refl
enough_rounds zero (suc g) out [] h k = refl
enough_rounds (suc f) zero out [] h k = refl
enough_rounds (suc f) (suc g) out [] h k = refl
enough_rounds zero (suc g) out (b ∷ bytes) h k = ground arith
enough_rounds (suc f) zero out (b ∷ bytes) h k = ground arith
enough_rounds (suc f) (suc g) out (b ∷ bytes) h k = elim (Result-cases (unframe (b ∷ bytes))) [
  | inl ((frame, rest), e) ↦ ground (
    arith,
    e,
    length-unframe (b ∷ bytes) frame rest e,
    enough_rounds f g (out ++ frame ∷ []) rest,
  )
  | inr (x, e) ↦ ground (arith, e)
]

frames_step :
    (fuel : ℕ) (out : List Frame) (bytes : List ℕ) (frame : Frame) (rest : List ℕ)
    → length bytes ≤ fuel
    → unframe bytes ≡ ok (frame, rest)
    → frames_within fuel out bytes ≡ frames_within (length rest) (out ++ frame ∷ []) rest
unfolding frames_within
frames_step fuel out [] frame rest h e = ground (arith, length-unframe [] frame rest e)
frames_step zero out (b ∷ bytes) frame rest h e = ground arith
frames_step (suc fuel) out (b ∷ bytes) frame rest h e = ground (
  arith,
  e,
  length-unframe (b ∷ bytes) frame rest e,
  enough_rounds fuel (length rest) (out ++ frame ∷ []) rest,
)

-- What was there before the walk stays in front.
frames-out :
    (fuel : ℕ) (out : List Frame) (bytes : List ℕ)
    → frames_within fuel out bytes
      ≡ (out ++ (frames_within fuel [] bytes).0, (frames_within fuel [] bytes).1)
unfolding frames_within
frames-out zero out [] = ground (arith, append-nil out)
frames-out (suc fuel) out [] = ground (arith, append-nil out)
frames-out zero out (b ∷ bytes) = ground (arith, append-nil out)
frames-out (suc fuel) out (b ∷ bytes) = elim (Result-cases (unframe (b ∷ bytes))) [
  | inl ((frame, rest), e) ↦ ground (
    arith,
    e,
    frames-out fuel (out ++ frame ∷ []) rest,
    frames-out fuel (frame ∷ []) rest,
    append_assoc out (frame ∷ []) (frames_within fuel [] rest).0,
  )
  | inr (x, e) ↦ ground (arith, e, append-nil out)
]

-- A frame, and the bytes that it was written as.
pub record IsFramed (item : Frame × List ℕ) : Type 0 where
  pub made : frame_record item.0.kind item.0.id item.0.sealed ≡ ok item.1
  pub id_fits : item.0.id < 2 ^ 128
  pub body_fits : length item.0.sealed < 2 ^ 63

frames_within-concat :
    (fuel : ℕ) (out : List Frame) (items : List (Frame × List ℕ)) (tail : List ℕ)
    → All IsFramed items
    → length (concat (map (λ i. i.1) items) ++ tail) ≤ fuel
    → frames_within fuel out (concat (map (λ i. i.1) items) ++ tail)
      ≡ frames_within (length tail) (out ++ map (λ i. i.0) items) tail
frames_within-concat fuel out [] tail all h =
    enough_rounds fuel (length tail) out tail h (omega arith)
    ∙ ap (λ o. frames_within (length tail) o tail) (sym (append-nil out))
frames_within-concat fuel out ((frame, bytes) ∷ items) tail (one, all) h =
    let rest = concat (map (λ i. i.1) items) ++ tail in
    ap (frames_within fuel out) (append_assoc bytes (concat (map (λ i. i.1) items)) tail)
    ∙ frames_step fuel out (bytes ++ rest) frame rest
        (subst (λ l. length l ≤ fuel) (append_assoc bytes (concat (map (λ i. i.1) items)) tail) h)
        (unframe-frame_record frame.kind frame.id frame.sealed bytes one.made rest one.id_fits
          one.body_fits)
    ∙ frames_within-concat (length rest) (out ++ frame ∷ []) items tail all (omega arith)
    ∙ ap (λ o. frames_within (length tail) o tail)
        (append_assoc out (frame ∷ []) (map (λ i. i.0) items))

-- A blob of framed records and then anything yields every one of the records, in order, and then
-- what that rest yields by itself, with the reason why the rest ended.
pub frames-concat :
    (items : List (Frame × List ℕ)) (tail : List ℕ)
    → All IsFramed items
    → frames (concat (map (λ i. i.1) items) ++ tail)
      ≡ (map (λ i. i.0) items ++ (frames tail).0, (frames tail).1)
unfolding frames
frames-concat items tail all =
    frames_within-concat (length (concat (map (λ i. i.1) items) ++ tail)) [] items tail all
      (omega arith)
    ∙ frames-out (length tail) (map (λ i. i.0) items) tail
