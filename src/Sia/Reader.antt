-- ===== src/Sia/Reader.antt =====
-- The reader of sia/envelope.go: it walks a fixed layout and carries its first failure.
use mnemosia.Prelude.{
  ℕ, zero, suc, ◌<◌, ◌≡◌, refl, sym, ap, ◌∙◌, ltb, nat_eq, List, [], ◌∷◌, ◌++◌, append_assoc,
  Option, none, some, length, length-append, take, drop, take-append, drop-append, concat, map, All,
  arith, if◌then◌else◌,
}
use mnemosia.Bytes.{to_bytes, of_bytes}
use mnemosia.Bytes.Fixed.{capacity, length-to_bytes, of_bytes-to_bytes}

-- The bytes left, and of the first failure how many were wanted and how many were there.
pub record Reader : Type 0 where
  pub left : List ℕ
  pub failure : Option (ℕ × ℕ)

abbrev pub open_reader : List ℕ → Reader
open_reader bytes = record { left = bytes; failure = none }

abbrev pub Read : Type 0 → Type 0
Read A = Reader → A × Reader

infixl 10 ◌>>=◌
unfoldable pub ◌>>=◌ : {A B : Type 0} → Read A → (A → Read B) → Read B
◌>>=◌ m f r = let (a, r') = m r in f a r'

unfoldable pub pure : {A : Type 0} → A → Read A
pure a r = (a, r)

unfoldable pub zeros : ℕ → List ℕ
zeros zero = []
zeros (suc n) = 0 ∷ zeros n

unfoldable pub fixed : ℕ → Read (List ℕ)
fixed n r = elim r.failure [
  | some f ↦ (zeros n, r)
  | none ↦
      if ltb (length r.left) n
      then (zeros n, record r { failure = some (n, length r.left) })
      else (take n r.left, record r { left = drop n r.left })
]

-- `byteAt`, `uint16`, `uint32` and `uint64`, by their width in bytes.
unfoldable pub uint : ℕ → Read ℕ
uint n = do bytes ← fixed n; pure (of_bytes bytes)

-- `reader.bytes`
unfoldable pub sized_after : ℕ → Read (List ℕ)
sized_after n r = elim r.failure [
  | some f ↦ ([], r)
  | none ↦ if nat_eq n 0 then ([], r) else fixed n r
]

unfoldable pub sized : Read (List ℕ)
sized = do n ← uint 4; sized_after n

unfoldable pub times : {A : Type 0} → ℕ → Read A → Read (List A)
times zero m = pure []
times (suc n) m = do a ← m; rest ← times n m; pure (a ∷ rest)

-- From these bytes the action reads this value, whatever comes after them.
pub record Reads {A : Type 0} (m : Read A) (bytes : List ℕ) (a : A) : Type 0 where
  pub at : (rest : List ℕ) → m (open_reader (bytes ++ rest)) ≡ (a, open_reader rest)

pub Reads-fixed : (n : ℕ) (bytes : List ℕ) → length bytes ≡ n → Reads (fixed n) bytes bytes
unfolding fixed
Reads-fixed n bytes h = record {
  at = λ rest.
      ap (λ k. fixed k (open_reader (bytes ++ rest))) (sym h)
      ∙ ground (arith, length-append bytes rest, take-append bytes rest, drop-append bytes rest);
}

module _ {A B : Type 0} where
  pub Reads-bind :
      {m : Read A} (f : A → Read B) {xs ys : List ℕ} {a : A} {b : B}
      → Reads m xs a
      → Reads (f a) ys b
      → Reads (m >>= f) (xs ++ ys) b
  unfolding ◌>>=◌
  Reads-bind {m} f {xs} {ys} {a} r s = record {
    at = λ rest.
        ap (λ bytes. (m >>= f) (open_reader bytes)) (append_assoc xs ys rest)
        ∙ ap (λ (p : A × Reader). f p.0 p.1) (r.at (ys ++ rest))
        ∙ s.at rest;
  }

  pub Reads-last :
      {m : Read A} {xs : List ℕ} {a : A} (f : A → B)
      → Reads m xs a
      → Reads (m >>= λ a. pure (f a)) xs (f a)
  unfolding ◌>>=◌ pure
  Reads-last f r = record { at = λ rest. ap (λ (p : A × Reader). (f p.0, p.1)) (r.at rest) }

pub Reads-uint : (n v : ℕ) → v < capacity n → Reads (uint n) (to_bytes n v) v
unfolding uint
Reads-uint n v h = record {
  at = λ rest.
      (Reads-last of_bytes (Reads-fixed n (to_bytes n v) (length-to_bytes n v))).at rest
      ∙ ap (λ k. (k, open_reader rest)) (of_bytes-to_bytes n v h);
}

-- `appendBytes`
unfoldable pub sized_bytes : List ℕ → List ℕ
sized_bytes bytes = to_bytes 4 (length bytes) ++ bytes

sized_nonzero :
    (n : ℕ) (bytes : List ℕ)
    → sized_after (suc n) (open_reader bytes) ≡ fixed (suc n) (open_reader bytes)
unfolding sized_after
sized_nonzero n bytes = ground arith

sized_after-Reads : (bytes : List ℕ) → Reads (sized_after (length bytes)) bytes bytes
unfolding sized_after
sized_after-Reads [] = record { at = λ rest. refl }
sized_after-Reads (b ∷ bytes) = record {
  at = λ rest.
      sized_nonzero (length bytes) ((b ∷ bytes) ++ rest)
      ∙ (Reads-fixed (length (b ∷ bytes)) (b ∷ bytes) refl).at rest;
}

pub Reads-sized :
    (bytes : List ℕ) → length bytes < capacity 4 → Reads sized (sized_bytes bytes) bytes
unfolding sized sized_bytes
Reads-sized bytes h =
    Reads-bind sized_after (Reads-uint 4 (length bytes) h) (sized_after-Reads bytes)

module _ {A B : Type 0} (m : Read B) (put : A → List ℕ) (value : A → B) where
  -- A list whose elements are read one by one.
  pub Reads-times :
      (xs : List A)
      → All (λ x. Reads m (put x) (value x)) xs
      → Reads (times (length xs) m) (concat (map put xs)) (map value xs)
  unfolding times pure
  Reads-times [] all = record { at = λ rest. refl }
  Reads-times (x ∷ xs) (one, all) =
      Reads-bind _ one (Reads-last (λ rest. value x ∷ rest) (Reads-times xs all))
