-- ===== src/Index/Heap/Down.antt =====
-- `down` puts an element that stands too high in its place, below `n`.
use mnemosia.Prelude.{
  ℕ, zero, suc, ◌+◌, ◌-◌, ◌*◌, ◌<◌, ◌≤◌, ◌≡◌, ◌≢◌, ◌⊎◌, inl, inr, Bool-cases, refl, ltb, leb, Bool,
  List, length, if◌then◌else◌, arith,
}
use mnemosia.Index.Heap.{parent, lower_child, down_loop, down}
use mnemosia.Index.Heap.Cells.{IsSwap, swap-IsSwap, Yields, yields}
use mnemosia.Index.Heap.Order.{
  Yields-bind, Yields-map, Yields-if, key_at, IsBridged, swap_key, less_at-keys, Sifted,
  Sifted-refl, Sifted-after,
}

module _ {A : Type 0} (key : A → ℕ) where
  -- All is in order below `n` but the element at `i`, which may belong further down.
  pub record TooHigh (n : ℕ) (a : List A) (i : ℕ) : Type 0 where
    pub edges : (c : ℕ) → 0 < c → c < n → parent c ≢ i → key_at key a (parent c) ≤ key_at key a c
    pub bridged : IsBridged key n a i

  -- The child of `i` that comes first.
  record IsLower (n : ℕ) (a : List A) (i j : ℕ) : Type 0 where
    inside : j < n
    child : (j ≡ 2 * i + 1) ⊎ (j ≡ 2 * i + 2)
    least : (c : ℕ) → 0 < c → c < n → parent c ≡ i → key_at key a j ≤ key_at key a c

  TooHigh-swap :
      (n : ℕ) (a b : List A) (i j : ℕ)
      → TooHigh n a i
      → IsLower n a i j
      → IsSwap a i j b
      → key_at key a j < key_at key a i
      → TooHigh n b j
  TooHigh-swap n a b i j v l s below =
      let at = swap_key key a b i j s in
      record {
        edges = λ c p q r. ground (arith, at c, at (parent c), v.edges c, v.bridged j, l.least c);
        bridged = λ c p q r t. ground (arith, at c, at (parent j), v.edges c);
      }

children : (c i : ℕ) → 0 < c → parent c ≡ i → (c ≡ 2 * i + 1) ⊎ (c ≡ 2 * i + 1 + 1)
children c i p h = omega (arith, p, h)

module _ {A : Type 0} (key : A → ℕ) where
  first_of_one :
      (n : ℕ) (a : List A) (i : ℕ)
      → 2 * i + 1 < n
      → n ≤ 2 * i + 1 + 1
      → IsLower key n a i (2 * i + 1)
  first_of_one n a i h k = record {
    inside = h;
    child = inl refl;
    least = λ c p q r. ground (arith, children c i p r);
  }

  first_of_two :
      (n : ℕ) (a : List A) (i : ℕ)
      → 2 * i + 1 + 1 < n
      → IsLower key n a i (
          if ltb (key_at key a (2 * i + 1 + 1)) (key_at key a (2 * i + 1))
          then 2 * i + 1 + 1
          else 2 * i + 1)
  first_of_two n a i h =
      elim (Bool-cases (ltb (key_at key a (2 * i + 1 + 1)) (key_at key a (2 * i + 1)))) [
        | inl right ↦ rw right (record {
          inside = h;
          child = inr (omega arith);
          least = λ c p q r. ground (arith, right, children c i p r);
        })
        | inr left ↦ rw left (record {
          inside = omega (arith, h);
          child = inl refl;
          least = λ c p q r. ground (arith, left, children c i p r);
        })
      ]

module _ {A : Type 0} (less : A → A → Bool) (key : A → ℕ)
    (ordered : (x y : A) → less x y ≡ ltb (key x) (key y)) where
  lower_child-IsLower :
      (n : ℕ) (a : List A) (i : ℕ)
      → n ≤ length a
      → 2 * i + 1 < n
      → Yields (IsLower key n a i) (lower_child less a i n)
  unfolding lower_child
  lower_child-IsLower n a i fits h =
      Yields-if (ltb (2 * i + 1 + 1) n)
        (λ both.
          rw
            (less_at-keys less key ordered a (2 * i + 1 + 1) (2 * i + 1) (ground (arith, both))
              (omega arith))
            (yields (first_of_two key n a i (ground (arith, both)))))
        (λ one. yields (first_of_one key n a i h (ground (arith, one))))

  down_loop_sinks :
      (fuel n : ℕ) (a : List A) (i : ℕ)
      → n ≤ length a
      → n - i < fuel
      → TooHigh key n a i
      → Yields (λ r. Sifted key n a r.0) (down_loop less fuel a i n)
  unfolding down_loop
  down_loop_sinks zero n a i fits f v = absurd (omega (arith, f))
  down_loop_sinks (suc fuel) n a i fits f v =
      Yields-if (leb n (2 * i + 1))
        (λ leaf. yields (Sifted-refl key n a (λ c p q. ground (arith, leaf, v.edges c))))
        (λ inner. Yields-bind (lower_child-IsLower n a i fits (ground (arith, inner))) λ j l.
          let hi : i < n = ground (arith, inner) in
          let hj : j < length a = omega (arith, fits, l.inside) in
          rw (less_at-keys less key ordered a j i hj (omega (arith, fits, hi))) (
            Yields-if (ltb (key_at key a j) (key_at key a i))
              (λ below. Yields-bind (swap-IsSwap a i j (omega (arith, fits, hi)) hj) λ b s.
                Yields-map (λ r k. Sifted-after key n a b r.0 i j hi l.inside s k)
                  (down_loop_sinks fuel n b j (omega (arith, fits, s.size))
                    (omega (arith, f, l.child, hi))
                    (TooHigh-swap key n a b i j v l s (ground (arith, below)))))
              (λ settled.
                yields
                  (Sifted-refl key n a (λ c p q. ground (arith, settled, v.edges c, l.least c))))))

  -- `down` makes a heap of the cells below `n`, in which one element stands too high.
  pub down_sinks :
      (n : ℕ) (a : List A) (i : ℕ)
      → n ≤ length a
      → TooHigh key n a i
      → Yields (λ r. Sifted key n a r.0) (down less a i n)
  unfolding down
  down_sinks n a i fits v =
      Yields-bind (down_loop_sinks (suc n) n a i fits (omega arith) v) λ r s. yields s
