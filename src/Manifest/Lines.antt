-- ===== src/Manifest/Lines.antt =====
-- manifest/lines.go: one sealed entry per line.
pub mod Scan
pub mod Cut
use mnemosia.Prelude.{
  ℕ, ◌+◌, ltb, ◌^◌, nat_eq, not, Bool, true, false, List, [], ◌∷◌, ◌++◌, Option, none, some, length,
  if◌then◌else◌,
}
use mnemosia.Prelude.Exec.{Result, ok, err}
use mnemosia.Manifest.Entry.{Entry, Book, put_entry}

-- JSON, the sealer and base64. What the sealer answers depends on the random bytes that it draws,
-- which the number of its call stands for.
pub record Codec : Type 0 where
  pub marshal : Entry → Option (List ℕ)
  pub unmarshal : List ℕ → Option Entry
  pub seal : ℕ → List ℕ → Option (List ℕ)
  pub unseal : List ℕ → Option (List ℕ)
  pub to_base64 : List ℕ → List ℕ
  pub of_base64 : List ℕ → Option (List ℕ)

pub data FileName : Type 0 where
  log_name snapshot_name : FileName

-- `failed` carries what the operating system said.
pub data Error : Type 0 where
  not_found : ℕ → Error
  unencodable unsealable : ℕ → Error
  bad_line : FileName → ℕ → Error
  too_long : FileName → Error
  failed : ℕ → Error

abbrev pub newline : ℕ
newline = 10

abbrev pub max_line_bytes : ℕ
max_line_bytes = 2 ^ 20

module _ (codec : Codec) where
  sealed_line : Entry → Option (List ℕ) → Result Error (List ℕ)
  sealed_line e none = err (unsealable e.id)
  sealed_line e (some bytes) = ok (codec.to_base64 bytes ++ newline ∷ [])

  marshalled_line : ℕ → Entry → Option (List ℕ) → Result Error (List ℕ)
  unfolding sealed_line
  marshalled_line n e none = err (unencodable e.id)
  marshalled_line n e (some plaintext) = sealed_line e (codec.seal n plaintext)

  unfoldable pub encode_entry : ℕ → Entry → Result Error (List ℕ)
  unfolding marshalled_line
  encode_entry n e = marshalled_line n e (codec.marshal e)

  -- The three readings of a line, each of which may fail.
  unfoldable pub decode_line : List ℕ → Option Entry
  decode_line text = elim (codec.of_base64 text) [
    | none ↦ none
    | some sealed ↦ elim (codec.unseal sealed) [
      | none ↦ none
      | some plaintext ↦ codec.unmarshal plaintext
    ]
  ]

-- `bufio.ScanLines`: the lines of a file without their ends, and with no empty line after the last
-- end.
unfoldable pub scan_lines : List ℕ → List ℕ → List (List ℕ)
scan_lines [] [] = []
scan_lines (b ∷ line) [] = (b ∷ line) ∷ []
scan_lines line (b ∷ rest) =
    let ended = scan_lines [] rest in
    let longer = scan_lines (line ++ b ∷ []) rest in
    if nat_eq b newline then line ∷ ended else longer

-- One carriage return is dropped from the end of a line.
unfoldable pub drop_return : List ℕ → List ℕ
drop_return [] = []
drop_return (b ∷ []) = if nat_eq b 13 then [] else b ∷ []
drop_return (b ∷ c ∷ rest) = b ∷ drop_return (c ∷ rest)

module _ (codec : Codec) where
  -- What is done with a line that is not empty.
  pub take_entry : FileName → ℕ → Option Entry → Book → Result Error Book
  take_entry name n none book = err (bad_line name n)
  take_entry name n (some e) book = ok (put_entry e book)

  unfoldable pub read_line : FileName → ℕ → List ℕ → Book → Result Error Book
  unfolding take_entry
  read_line name n [] book = ok book
  read_line name n text book = take_entry name n (decode_line codec text) book

  unfoldable pub read_lines : FileName → ℕ → List (List ℕ) → Book → Result Error Book
  read_lines name n [] book = ok book
  read_lines name n (line ∷ rest) book =
      if ltb (length line) max_line_bytes
      then elim (read_line name n (drop_return line) book) [
        | ok read ↦ read_lines name (n + 1) rest read
        | err e ↦ err e
      ]
      else err (too_long name)

  unfoldable pub read_entries : FileName → List ℕ → Book → Result Error Book
  read_entries name bytes book = read_lines name 1 (scan_lines [] bytes) book
