-- ===== src/Index/Heap/Whole.antt =====
-- `Push`, `Pop` and `Fix` of a heap.
use mathlib.Core.List.{Perm, perm_middle}
use mathlib.Core.List.Perm as Permutation
use mnemosia.Prelude.{
  ℕ, zero, suc, ◌-◌, ◌<◌, ◌≤◌, ◌≡◌, refl, sym, ap, ◌∙◌, subst, ltb, Bool, List, [], ◌∷◌, ◌++◌,
  append-nil, some, length, length-append, length-take, take, arith,
}
use mnemosia.Index.Heap.{parent, up_loop, up, push, pop, fix}
use mnemosia.Index.Heap.Cells.{get_elem?, within, swap-IsSwap, IsSwap, Yields, yields}
use mnemosia.Index.Heap.Order.{
  Yields-bind, Yields-map, Yields-if, key_at, key_at-some, IsHeap, swap_key, root_least, Sifted,
}
use mnemosia.Index.Heap.Up.{TooLow, up_lifts}
use mnemosia.Index.Heap.Down.{TooHigh, down_sinks}

module _ {A : Type 0} where
  cell_of_append :
      (front back : List A) (p : ℕ)
      → p < length front
      → get_elem? (front ++ back) p ≡ get_elem? front p
  unfolding get_elem?
  cell_of_append (x ∷ front) back (suc p) h = cell_of_append front back p (omega (arith, h))
  cell_of_append (x ∷ front) back zero h = refl
  cell_of_append [] back p h = absurd (omega (arith, h))

  cell_of_take :
      (n : ℕ) (cells : List A) (p : ℕ) → p < n → get_elem? (take n cells) p ≡ get_elem? cells p
  unfolding get_elem?
  cell_of_take (suc n) (x ∷ cells) (suc p) h = cell_of_take n cells p (omega (arith, h))
  cell_of_take (suc n) (x ∷ cells) zero h = refl
  cell_of_take (suc n) [] p h = refl
  cell_of_take zero cells p h = absurd (omega (arith, h))

  cut_last :
      (n : ℕ) (a : List A) (x : A)
      → length a ≡ suc n
      → get_elem? a n ≡ some x
      → take n a ++ x ∷ [] ≡ a
  unfolding get_elem?
  cut_last n [] x h k = ground arith
  cut_last zero (y ∷ []) x h k = cc k
  cut_last zero (y ∷ z ∷ a) x h k = ground (arith, h)
  cut_last (suc n) (y ∷ a) x h k = ap (◌∷◌ y) (cut_last n a x (omega (arith, h)) k)

  snoc-perm : (a : List A) (x : A) → Perm (a ++ x ∷ []) (x ∷ a)
  snoc-perm a x = rw (append-nil a) at (perm_middle {a = x} a [])

module _ {A : Type 0} (key : A → ℕ) where
  -- A heap, of these elements.
  pub record Heaped (all h : List A) : Type 0 where
    pub heap : IsHeap key (length h) h
    pub same : Perm h all

  -- One of the elements that come first, and a heap of the others.
  pub record Popped (h : List A) (r : A × List A) : Type 0 where
    pub heap : IsHeap key (length r.1) r.1
    pub same : Perm (r.0 ∷ r.1) h
    pub least : (i : ℕ) → i < length h → key r.0 ≤ key_at key h i

module _ {A : Type 0} (less : A → A → Bool) (key : A → ℕ)
    (ordered : (x y : A) → less x y ≡ ltb (key x) (key y)) where
  pub push-Heaped :
      (h : List A) (x : A) → IsHeap key (length h) h → Yields (Heaped key (x ∷ h)) (push less h x)
  unfolding push key_at
  push-Heaped h x o =
      Yields-map
        (λ g s. record {
          heap = subst (λ n. IsHeap key n g) (sym s.size) s.heap;
          same = Permutation.trans s.same (snoc-perm h x);
        })
        (up_lifts less key ordered (h ++ x ∷ []) (length h) start)
    where
      start : TooLow key (h ++ x ∷ []) (length h)
      start = record {
        inside = omega (arith, length-append h (x ∷ []));
        edges = λ c p q r. ground (
          arith,
          o c,
          length-append h (x ∷ []),
          cell_of_append h (x ∷ []) c,
          cell_of_append h (x ∷ []) (parent c),
        );
        bridged = λ c p q r t. omega (arith, q, r, length-append h (x ∷ []), p);
      }

  -- An element that takes the place of the root.
  pub fix-Heaped : (h : List A) → TooHigh key (length h) h 0 → Yields (Heaped key h) (fix less h 0)
  unfolding fix up up_loop
  fix-Heaped h v =
      Yields-bind (down_sinks less key ordered (length h) h 0 (omega arith) v) λ (g, moved) s.
        let whole : Heaped key h g = record {
          heap = subst (λ n. IsHeap key n g) (sym s.size) s.heap;
          same = s.same;
        } in
        Yields-if moved (λ _. yields whole) (λ _. yields whole)

  raised-TooHigh :
      (n : ℕ) (h b : List A)
      → length h ≡ suc n
      → IsHeap key (length h) h
      → IsSwap h 0 n b
      → TooHigh key n b 0
  raised-TooHigh n h b size o s =
      let at = swap_key key h b 0 n s in
      record {
        edges = λ c p q r. ground (arith, size, at c, at (parent c), o c);
        bridged = λ c p q r t. absurd (omega (arith, t));
      }

  kept-Popped :
      (n : ℕ) (h b g : List A) (x : A)
      → length h ≡ suc n
      → IsHeap key (length h) h
      → IsSwap h 0 n b
      → Sifted key n b g
      → get_elem? h 0 ≡ some x
      → get_elem? g n ≡ some x
      → Popped key h (x, take n g)
  unfolding key_at
  kept-Popped n h b g x size o s k top out =
      let short : length (take n g) ≡ n = length-take n g (omega (arith, size, s.size, k.size)) in
      record {
        heap = λ c p q.
            ground (arith, short, q, k.heap c, cell_of_take n g c, cell_of_take n g (parent c));
        same = Permutation.trans (Permutation.symm (snoc-perm (take n g) x)) (
            subst (λ a. Perm a h) (sym (cut_last n g x (k.size ∙ s.size ∙ size) out))
              (Permutation.trans k.same s.same));
        least = λ i p.
            subst (λ m. m ≤ key_at key h i) (key_at-some key h 0 x top)
              (root_least key (length h) h i o p);
      }

  pub pop-Popped :
      (h : List A) → 0 < length h → IsHeap key (length h) h → Yields (Popped key h) (pop less h)
  unfolding pop
  pop-Popped h full o =
      let n = length h - 1 in
      let size : length h ≡ suc n = omega (arith, full) in
      let (x, top) = within h 0 full in
      Yields-bind (swap-IsSwap h 0 n full (omega (arith, full))) λ b s.
        Yields-bind
          (down_sinks less key ordered n b 0 (omega (arith, s.size))
            (raised-TooHigh n h b size o s))
          λ (g, _) k.
            let out : get_elem? g n ≡ some x = ground (arith, k.past n, s.cell n, top) in
            rw out (yields (kept-Popped n h b g x size o s k top out))
