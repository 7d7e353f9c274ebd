-- ===== src/Bytes/Varint.antt =====
-- A number in groups of seven bits.
use mnemosia.Prelude.{
  ℕ, suc, zero, ◌+◌, ◌-◌, ◌*◌, ◌/◌, ◌%◌, ◌<◌, ◌^◌, ◌≡◌, ap, ◌∙◌, ltb, true, false, Bool-cases, inl,
  inr, List, [], ◌∷◌, ◌++◌, some, arith,
}
use mnemosia.Bytes.{put_uvarint, read_uvarint, append_uvarint, uvarint}

-- The numbers that so many bytes may hold of the last of 64 bits.
abbrev room : ℕ → ℕ
room zero = 0
room (suc zero) = 2
room (suc (suc n)) = 128 * room (suc n)

weigh_parts :
    (q r weight acc : ℕ) → acc + r * weight + q * (weight * 128) ≡ acc + (q * 128 + r) * weight
weigh_parts q r weight acc = grind arith

weigh : (v weight acc : ℕ) → acc + v % 128 * weight + v / 128 * (weight * 128) ≡ acc + v * weight
weigh v weight acc =
    weigh_parts (v / 128) (v % 128) weight acc ∙ ap (λ n. acc + n * weight) (omega arith)

-- One byte of a longer number.
read_more :
    (n acc weight b : ℕ) (bytes : List ℕ)
    → b < 128
    → read_uvarint (suc n) acc weight ((b + 128) ∷ bytes)
      ≡ read_uvarint n (acc + b * weight) (weight * 128) bytes
unfolding read_uvarint
read_more n acc weight b bytes h =
    let e : b + 128 - 128 ≡ b = omega arith in ground (arith, ap (λ t. t * weight) e)

put_more :
    (n v : ℕ)
    → ltb v 128 ≡ false
    → put_uvarint (suc n) v ≡ (v % 128 + 128) ∷ put_uvarint n (v / 128)
unfolding put_uvarint
put_more n v h = ground arith

put_last : (n v : ℕ) → ltb v 128 ≡ true → put_uvarint (suc n) v ≡ v ∷ []
unfolding put_uvarint
put_last n v h = ground arith

read_last :
    (n acc weight v : ℕ) (rest : List ℕ)
    → ltb v 128 ≡ true
    → read_uvarint (suc (suc n)) acc weight (v ∷ rest) ≡ some (acc + v * weight, rest)
unfolding read_uvarint
read_last n acc weight v rest h = ground arith

read_uvarint-put_uvarint :
    (n acc weight v : ℕ) (rest : List ℕ)
    → v < room n
    → read_uvarint n acc weight (put_uvarint n v ++ rest) ≡ some (acc + v * weight, rest)
unfolding put_uvarint read_uvarint
read_uvarint-put_uvarint zero acc weight v rest h = ground arith
read_uvarint-put_uvarint (suc zero) acc weight v rest h = ground arith
read_uvarint-put_uvarint (suc (suc n)) acc weight v rest h = elim (Bool-cases (ltb v 128)) [
  | inl last ↦
      ap (λ bytes. read_uvarint (suc (suc n)) acc weight (bytes ++ rest)) (put_last (suc n) v last)
      ∙ read_last n acc weight v rest last
  | inr more ↦
      ap (λ bytes. read_uvarint (suc (suc n)) acc weight (bytes ++ rest)) (put_more (suc n) v more)
      ∙ read_more (suc n) acc weight (v % 128) (put_uvarint (suc n) (v / 128) ++ rest) (omega arith)
      ∙ read_uvarint-put_uvarint (suc n) (acc + v % 128 * weight) (weight * 128) (v / 128) rest
          (omega arith)
      ∙ ap (λ n. some (n, rest)) (weigh v weight acc)
]

pub uvarint-append_uvarint :
    (v : ℕ) (rest : List ℕ) → v < 2 ^ 64 → uvarint (append_uvarint v ++ rest) ≡ some (v, rest)
unfolding uvarint append_uvarint
uvarint-append_uvarint v rest h =
    read_uvarint-put_uvarint 10 0 1 v rest h ∙ ap (λ n. some (n, rest)) (omega arith)
