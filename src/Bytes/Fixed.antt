-- ===== src/Bytes/Fixed.antt =====
-- A number in a fixed width of bytes.
use mnemosia.Prelude.{
  ℕ, suc, zero, ◌+◌, ◌*◌, ◌/◌, ◌%◌, ◌<◌, ◌≡◌, refl, ◌∙◌, List, [], ◌∷◌, ◌++◌, length, length-append,
  arith,
}
use mnemosia.Bytes.{to_bytes, add_bytes, of_bytes}

-- How many numbers n bytes hold.
abbrev pub capacity : ℕ → ℕ
capacity zero = 1
capacity (suc n) = 256 * capacity n

pub length-to_bytes : (n v : ℕ) → length (to_bytes n v) ≡ n
unfolding to_bytes
length-to_bytes zero v = refl
length-to_bytes (suc n) v =
    omega
      (arith, length-append (to_bytes n (v / 256)) ((v % 256) ∷ []), length-to_bytes n (v / 256))

add_bytes-append :
    (acc : ℕ) (xs ys : List ℕ) → add_bytes acc (xs ++ ys) ≡ add_bytes (add_bytes acc xs) ys
unfolding add_bytes
add_bytes-append acc [] ys = refl
add_bytes-append acc (x ∷ xs) ys = add_bytes-append (acc * 256 + x) xs ys

pub of_bytes-to_bytes : (n v : ℕ) → v < capacity n → of_bytes (to_bytes n v) ≡ v
unfolding to_bytes of_bytes add_bytes
of_bytes-to_bytes zero v h = omega arith
of_bytes-to_bytes (suc n) v h =
    add_bytes-append 0 (to_bytes n (v / 256)) ((v % 256) ∷ [])
    ∙ ground (arith, of_bytes-to_bytes n (v / 256) (omega arith))
