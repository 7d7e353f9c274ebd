-- ===== src/Manifest/Tests/SmallCodec.antt =====
-- A small format that keeps the laws of the codec.
use mnemosia.Prelude.{
  ℕ, ◌+◌, ◌-◌, ◌<◌, ◌≡◌, refl, ap, Bool, true, false, ◌&&◌, List, [], ◌∷◌, number_keys, nat_eq,
  String, string_keys, ◌==◌, Option, none, some, length, All, arith, if◌then◌else◌, Bool-cases, inl,
  inr,
}
use text.Mathlib.TextEquality.{eq_iff}
use mnemosia.Prelude.Int.{ℤ, pos, negsuc}
use mnemosia.Manifest.Entry.{Entry, no_entry}
use mnemosia.Manifest.Lines.{Codec}
use mnemosia.Manifest.Lines.Scan.{RoundTrip}

unfoldable pub int_eq0 : ℤ → Bool
int_eq0 (pos n) = nat_eq n 0
int_eq0 (negsuc n) = false

unfoldable pub no_tags : List String → Bool
no_tags [] = true
no_tags (t ∷ tags) = false

-- The format has room for the id, the time and the mark alone, and takes no other entry.
unfoldable pub bare : Entry → Bool
unfolding int_eq0 no_tags
bare e =
    e.kind == ""
    && e.subtype == ""
    && e.cid == ""
    && e.object_ref == ""
    && e.slab_id == ""
    && int_eq0 e.version
    && int_eq0 e.bytes
    && no_tags e.tags

unfoldable pub flag : Bool → ℕ
flag true = 1
flag false = 0

unfoldable pub read_back : List ℕ → Option Entry
read_back (id ∷ written_at ∷ mark ∷ []) =
    some (record no_entry { id = id; written_at = written_at; deleted = nat_eq mark 1 })
read_back bytes = none

unfoldable pub drop_nonce : List ℕ → Option (List ℕ)
drop_nonce [] = none
drop_nonce (n ∷ p) = some p

unfoldable pub write_out : Entry → Option (List ℕ)
unfolding bare flag
write_out e = if bare e then some (e.id ∷ e.written_at ∷ flag e.deleted ∷ []) else none

unfoldable pub seal_with : ℕ → List ℕ → Option (List ℕ)
seal_with n p = some (n ∷ p)

unfoldable pub shift : List ℕ → List ℕ
shift [] = []
shift (b ∷ bytes) = (33 + b) ∷ shift bytes

unfoldable pub unshift : List ℕ → List ℕ
unshift [] = []
unshift (b ∷ bytes) = (b - 33) ∷ unshift bytes

unfoldable pub shifted_back : List ℕ → Option (List ℕ)
unfolding unshift
shifted_back text = some (unshift text)

abbrev pub small_codec : Codec
small_codec = record {
  marshal = write_out;
  unmarshal = read_back;
  seal = seal_with;
  unseal = drop_nonce;
  to_base64 = shift;
  of_base64 = shifted_back;
}

rebuilt :
    (d : Bool) (id at : ℕ) (kind subtype cid ref slab : String) (version size : ℤ)
    (tags : List String)
    → bare (record {
      id = id;
      kind = kind;
      subtype = subtype;
      version = version;
      cid = cid;
      object_ref = ref;
      slab_id = slab;
      bytes = size;
      tags = tags;
      written_at = at;
      deleted = d;
    })
      ≡ true
    → read_back (id ∷ at ∷ flag d ∷ [])
      ≡ some (record {
        id = id;
        kind = kind;
        subtype = subtype;
        version = version;
        cid = cid;
        object_ref = ref;
        slab_id = slab;
        bytes = size;
        tags = tags;
        written_at = at;
        deleted = d;
      })
unfolding bare flag read_back int_eq0 no_tags
rebuilt true id at kind subtype cid ref slab (pos v) (pos n) [] h =
    ground (arith, eq_iff kind "", eq_iff subtype "", eq_iff cid "", eq_iff ref "", eq_iff slab "")
rebuilt false id at kind subtype cid ref slab (pos v) (pos n) [] h =
    ground (arith, eq_iff kind "", eq_iff subtype "", eq_iff cid "", eq_iff ref "", eq_iff slab "")
rebuilt d id at kind subtype cid ref slab (negsuc v) n tags h = ground arith
rebuilt d id at kind subtype cid ref slab (pos v) (negsuc n) tags h = ground arith
rebuilt d id at kind subtype cid ref slab (pos v) (pos n) (t ∷ tags) h = ground arith

written_back : (e : Entry) (bytes : List ℕ) → write_out e ≡ some bytes → read_back bytes ≡ some e
unfolding write_out
written_back e bytes h = elim (Bool-cases (bare e)) [
  | inl b ↦ ground (
    arith,
    h,
    b,
    rebuilt e.deleted e.id e.written_at e.kind e.subtype e.cid e.object_ref e.slab_id e.version
        e.bytes e.tags b,
  )
  | inr b ↦ ground (arith, h, b)
]

unshift-shift : (bytes : List ℕ) → unshift (shift bytes) ≡ bytes
unfolding shift unshift
unshift-shift [] = refl
unshift-shift (b ∷ bytes) = ground (arith, unshift-shift bytes)

shift-All : (bytes : List ℕ) → All (λ b. 32 < b) (shift bytes)
unfolding shift
shift-All [] = tt
shift-All (b ∷ bytes) = (omega arith, shift-All bytes)

sealed_back : (n : ℕ) (p s : List ℕ) → seal_with n p ≡ some s → drop_nonce s ≡ some p
unfolding seal_with drop_nonce
sealed_back n p [] h = ground arith
sealed_back n p (m ∷ s) h = ground arith

sealed_some : (n : ℕ) (p s : List ℕ) → seal_with n p ≡ some s → 0 < length (shift s)
unfolding seal_with shift
sealed_some n p [] h = ground arith
sealed_some n p (m ∷ s) h = ground arith

pub small_codec-RoundTrip : RoundTrip small_codec
unfolding shifted_back
small_codec-RoundTrip = record {
  of_json = written_back;
  of_sealed = sealed_back;
  of_text = λ bytes. ap some (unshift-shift bytes);
  printable = shift-All;
  nonempty = sealed_some;
}
