-- ===== src/Index/Heap/Up.antt =====
-- `up` puts an element that stands too low in its place.
use mnemosia.Prelude.{
  ℕ, zero, suc, ◌<◌, ◌≤◌, ◌≡◌, ◌≢◌, subst, ltb, nat_eq, Bool, List, length, arith,
}
use mnemosia.Index.Heap.{parent, up_loop, up}
use mnemosia.Index.Heap.Cells.{IsSwap, swap-IsSwap, Yields, yields}
use mnemosia.Index.Heap.Order.{
  Yields-bind, Yields-map, Yields-if, key_at, IsBridged, swap_key, less_at-keys, Sifted,
  Sifted-refl, Sifted-after,
}

module _ {A : Type 0} (key : A → ℕ) where
  -- All is in order but the element at `j`, which may belong further up.
  pub record TooLow (a : List A) (j : ℕ) : Type 0 where
    pub inside : j < length a
    pub edges : (c : ℕ) → 0 < c → c < length a → c ≢ j → key_at key a (parent c) ≤ key_at key a c
    pub bridged : IsBridged key (length a) a j

  TooLow-swap :
      (a b : List A) (j : ℕ)
      → TooLow a j
      → IsSwap a (parent j) j b
      → 0 < j
      → key_at key a j < key_at key a (parent j)
      → TooLow b (parent j)
  TooLow-swap a b j v s pos below =
      let at = swap_key key a b (parent j) j s in
      record {
        inside = omega (arith, v.inside, s.size);
        edges = λ c p q r. ground (arith, s.size, at c, at (parent c), v.edges c, v.bridged c);
        bridged = λ c p q r t. ground (
          arith,
          s.size,
          at c,
          at (parent (parent j)),
          v.edges c,
          v.edges (parent j),
          v.bridged c,
        );
      }

module _ {A : Type 0} (less : A → A → Bool) (key : A → ℕ)
    (ordered : (x y : A) → less x y ≡ ltb (key x) (key y)) where
  up_loop_lifts :
      (fuel : ℕ) (a : List A) (j : ℕ)
      → j < fuel
      → TooLow key a j
      → Yields (Sifted key (length a) a) (up_loop less fuel a j)
  unfolding up_loop
  up_loop_lifts zero a j f v = absurd (omega arith)
  up_loop_lifts (suc fuel) a j f v =
      let above : parent j < length a = omega (arith, v.inside) in
      rw (less_at-keys less key ordered a j (parent j) v.inside above) (
        Yields-if (nat_eq (parent j) j)
          (λ top. yields (Sifted-refl key (length a) a (λ c p q. ground (arith, top, v.edges c))))
          (λ under.
            Yields-if (ltb (key_at key a j) (key_at key a (parent j)))
              (λ below. Yields-bind (swap-IsSwap a (parent j) j above v.inside) λ b s.
                Yields-map
                  (λ d k.
                    Sifted-after key (length a) a b d (parent j) j above v.inside s
                      (subst (λ n. Sifted key n b d) s.size k))
                  (up_loop_lifts fuel b (parent j) (ground (arith, under))
                    (TooLow-swap key a b j v s (ground (arith, under)) (ground (arith, below)))))
              (λ settled.
                yields
                  (Sifted-refl key (length a) a (λ c p q. ground (arith, settled, v.edges c))))))

  -- `up` makes a heap of a slice in which one element stands too low.
  pub up_lifts :
      (a : List A) (j : ℕ) → TooLow key a j → Yields (Sifted key (length a) a) (up less a j)
  unfolding up
  up_lifts a j v = up_loop_lifts (suc j) a j (omega arith) v
