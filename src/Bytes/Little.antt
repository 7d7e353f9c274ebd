-- ===== src/Bytes/Little.antt =====
-- A number in a fixed width of bytes, the lowest first.
use mnemosia.Prelude.{
  ℕ, suc, zero, ◌+◌, ◌*◌, ◌/◌, ◌%◌, ◌<◌, ◌≡◌, refl, List, [], ◌∷◌, length, arith,
}
use mnemosia.Bytes.Fixed.{capacity}

-- The lowest n bytes of a number.
unfoldable pub to_little : ℕ → ℕ → List ℕ
to_little zero v = []
to_little (suc n) v = (v % 256) ∷ to_little n (v / 256)

unfoldable pub of_little : List ℕ → ℕ
of_little [] = 0
of_little (b ∷ bytes) = b + 256 * of_little bytes

pub length-to_little : (n v : ℕ) → length (to_little n v) ≡ n
unfolding to_little
length-to_little zero v = refl
length-to_little (suc n) v = omega (arith, length-to_little n (v / 256))

pub of_little-to_little : (n v : ℕ) → v < capacity n → of_little (to_little n v) ≡ v
unfolding to_little of_little
of_little-to_little zero v h = omega arith
of_little-to_little (suc n) v h = omega (arith, of_little-to_little n (v / 256) (omega arith))
