-- ===== src/Manifest/Lines/Scan.antt =====
-- What a file of whole lines reads as, and what one with a cut line does.
use mnemosia.Prelude.{
  ℕ, ◌+◌, ◌<◌, ◌≤◌, ◌≡◌, refl, sym, ◌∙◌, ap, subst, List, [], ◌∷◌, ◌++◌, append-nil, append_assoc,
  Option, none, some, length, length-append, All, arith,
}
use mnemosia.Prelude.Exec.{Result, ok, err}
use mnemosia.Manifest.Entry.{Entry, Book, put_entry}
use mnemosia.Manifest.Entry.Merge.{put_entries}
use mnemosia.Manifest.Lines.{
  Codec, FileName, Error, newline, max_line_bytes, encode_entry, marshalled_line, sealed_line,
  decode_line, scan_lines, drop_return, take_entry, read_line, read_lines, read_entries,
}

-- What the format relies on: JSON and base64 read back what they wrote, the sealer opens what it
-- sealed, base64 has no control character or space, and no sealed text is empty.
pub record RoundTrip (codec : Codec) : Type 0 where
  pub of_json :
      (e : Entry) (bytes : List ℕ) → codec.marshal e ≡ some bytes → codec.unmarshal bytes ≡ some e
  pub of_sealed : (n : ℕ) (p s : List ℕ) → codec.seal n p ≡ some s → codec.unseal s ≡ some p
  pub of_text : (bytes : List ℕ) → codec.of_base64 (codec.to_base64 bytes) ≡ some bytes
  pub printable : (bytes : List ℕ) → All (λ b. 32 < b) (codec.to_base64 bytes)
  pub nonempty : (n : ℕ) (p s : List ℕ) → codec.seal n p ≡ some s → 0 < length (codec.to_base64 s)

-- However it is sealed, the entry's line fits the reader's buffer.
pub record Short (codec : Codec) (e : Entry) : Type 0 where
  pub fits :
      (n : ℕ) (line : List ℕ) → encode_entry codec n e ≡ ok line → length line ≤ max_line_bytes

pub record IsText (codec : Codec) (text : List ℕ) (e : Entry) : Type 0 where
  pub plain : All (λ b. 32 < b) text
  pub nonempty : 0 < length text
  pub fits : length text < max_line_bytes
  pub reads : decode_line codec text ≡ some e

-- The bytes are whole lines, one for each of the entries.
unfoldable pub Holds : Codec → List ℕ → List Entry → Type 0
Holds codec bytes [] = bytes ≡ []
Holds codec bytes (e ∷ es) =
    (text : List ℕ) × (rest : List ℕ) × (bytes ≡ text ++ newline ∷ rest)
    × IsText codec text e
    × Holds codec rest es

pub scan_text :
    (line text rest : List ℕ)
    → All (λ b. 32 < b) text
    → scan_lines line (text ++ newline ∷ rest) ≡ (line ++ text) ∷ scan_lines [] rest
unfolding scan_lines
scan_text line [] rest h = ap (λ l. l ∷ scan_lines [] rest) (sym (append-nil line))
scan_text line (b ∷ text) rest h =
    ground (arith, scan_text (line ++ b ∷ []) text rest h.1, append_assoc line (b ∷ []) text)

pub drop_return_text : (text : List ℕ) → All (λ b. 32 < b) text → drop_return text ≡ text
unfolding drop_return
drop_return_text [] h = refl
drop_return_text (b ∷ []) h = ground arith
drop_return_text (b ∷ c ∷ text) h = ap (◌∷◌ b) (drop_return_text (c ∷ text) h.1)

module _ (codec : Codec) where
  pub read_nonempty :
      (name : FileName) (n : ℕ) (text : List ℕ) (book : Book)
      → 0 < length text
      → read_line codec name n text book ≡ take_entry codec name n (decode_line codec text) book
  unfolding read_line
  read_nonempty name n [] book h = ground arith
  read_nonempty name n (b ∷ text) book h = refl

  pub read_text :
      (name : FileName) (n : ℕ) (text : List ℕ) (e : Entry) (book : Book)
      → IsText codec text e
      → read_line codec name n (drop_return text) book ≡ ok (put_entry e book)
  unfolding read_line take_entry
  read_text name n text e book h =
      ap (λ t. read_line codec name n t book) (drop_return_text text h.plain)
      ∙ read_nonempty name n text book h.nonempty
      ∙ ap (λ o. take_entry codec name n o book) h.reads

  pub read_lines_step :
      (name : FileName) (n : ℕ) (text : List ℕ) (rest : List (List ℕ)) (book read : Book)
      → length text < max_line_bytes
      → read_line codec name n (drop_return text) book ≡ ok read
      → read_lines codec name n (text ∷ rest) book ≡ read_lines codec name (n + 1) rest read
  unfolding read_lines
  read_lines_step name n text rest book read h k = ground arith

  read_Holds_from :
      (name : FileName) (n : ℕ) (bytes : List ℕ) (es : List Entry) (book : Book)
      → Holds codec bytes es
      → read_lines codec name n (scan_lines [] bytes) book ≡ ok (put_entries es book)
  unfolding Holds read_lines scan_lines put_entries
  read_Holds_from name n bytes [] book h =
      subst (λ b. read_lines codec name n (scan_lines [] b) book ≡ ok book) (sym h) refl
  read_Holds_from name n bytes (e ∷ es) book (text, rest, cut, is, holds) =
      ap (λ lines. read_lines codec name n lines book)
        (ap (scan_lines []) cut ∙ scan_text [] text rest is.plain)
      ∙ read_lines_step name n text (scan_lines [] rest) book (put_entry e book) is.fits
          (read_text name n text e book is)
      ∙ read_Holds_from name (n + 1) rest es (put_entry e book) holds

  pub Holds-append :
      (xs ys : List ℕ) (es fs : List Entry)
      → Holds codec xs es
      → Holds codec ys fs
      → Holds codec (xs ++ ys) (es ++ fs)
  unfolding Holds
  Holds-append xs ys [] fs h k = subst (λ b. Holds codec (b ++ ys) fs) (sym h) k
  Holds-append xs ys (e ∷ es) fs (text, rest, cut, is, holds) k = (
    text,
    rest ++ ys,
    ap (λ b. b ++ ys) cut ∙ append_assoc text (newline ∷ rest) ys,
    is,
    Holds-append rest ys es fs holds k,
  )

  pub read_entries-Holds :
      (name : FileName) (bytes : List ℕ) (es : List Entry) (book : Book)
      → Holds codec bytes es
      → read_entries codec name bytes book ≡ ok (put_entries es book)
  unfolding read_entries
  read_entries-Holds name bytes es book h = read_Holds_from name 1 bytes es book h

  line_of : Result Error (List ℕ) → List ℕ
  line_of (ok line) = line
  line_of (err e) = []

  decode_line_lem :
      (n : ℕ) (e : Entry) (p s : List ℕ)
      → RoundTrip codec
      → codec.marshal e ≡ some p
      → codec.seal n p ≡ some s
      → decode_line codec (codec.to_base64 s) ≡ some e
  unfolding decode_line
  decode_line_lem n e p s r h k = ground (arith, r.of_text s, r.of_sealed n p s k, r.of_json e p h)

  sealed-Holds :
      (n : ℕ) (e : Entry) (p : List ℕ) (line : List ℕ) (sealed : Option (List ℕ))
      → RoundTrip codec
      → length line ≤ max_line_bytes
      → codec.marshal e ≡ some p
      → codec.seal n p ≡ sealed
      → sealed_line codec e sealed ≡ ok line
      → Holds codec line (e ∷ [])
  unfolding Holds sealed_line line_of
  sealed-Holds n e p line none r f h k l = ground arith
  sealed-Holds n e p line (some s) r f h k l = (
    codec.to_base64 s,
    [],
    sym (ap line_of l),
    record {
      plain = r.printable s;
      nonempty = r.nonempty n p s k;
      fits =
          omega
            (arith, length-append (codec.to_base64 s) (newline ∷ []), ap length (ap line_of l), f);
      reads = decode_line_lem n e p s r h k;
    },
    refl,
  )

  marshalled-Holds :
      (n : ℕ) (e : Entry) (line : List ℕ) (marshalled : Option (List ℕ))
      → RoundTrip codec
      → length line ≤ max_line_bytes
      → codec.marshal e ≡ marshalled
      → marshalled_line codec n e marshalled ≡ ok line
      → Holds codec line (e ∷ [])
  unfolding marshalled_line
  marshalled-Holds n e line none r f h k = ground arith
  marshalled-Holds n e line (some p) r f h k = sealed-Holds n e p line (codec.seal n p) r f h refl k

  pub encode_entry-Holds :
      (n : ℕ) (e : Entry) (line : List ℕ)
      → RoundTrip codec
      → Short codec e
      → encode_entry codec n e ≡ ok line
      → Holds codec line (e ∷ [])
  unfolding encode_entry
  encode_entry-Holds n e line r s h =
      marshalled-Holds n e line (codec.marshal e) r (s.fits n line h) refl h
