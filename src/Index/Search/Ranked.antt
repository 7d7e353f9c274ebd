-- ===== src/Index/Search/Ranked.antt =====
-- Lists by the keys of their elements: bounds, orders, and what a permutation leaves of them.
use mathlib.Core.Logic.{∥∥₁_elim}
use mathlib.Core.List.{Perm, Permᴰ}
use native.Mathlib.Bridge.{le_prop}
use native.Mathlib.Nat.{ℕ_set}
use mnemosia.Prelude.{ℕ, suc, ◌<◌, ◌≤◌, ◌≡◌, refl, subst, List, [], ◌∷◌, length, All, arith}
use mnemosia.Index.Heap.Cells.{get_elem?, set}
use mnemosia.Index.Heap.Order.{key_at, IsHeap, root_least}

module _ {A : Type 0} where
  pub All-map : {P Q : A → Type 0} (xs : List A) → ((x : A) → P x → Q x) → All P xs → All Q xs
  All-map [] f h = tt
  All-map (x ∷ xs) f (h, hs) = (f x h, All-map xs f hs)

  pub All-always : {P : A → Type 0} (xs : List A) → ((x : A) → P x) → All P xs
  All-always [] f = tt
  All-always (x ∷ xs) f = (f x, All-always xs f)

  pub length-perm : {a b : List A} → Perm a b → length a ≡ length b
  length-perm p = ∥∥₁_elim p (ℕ_set _ _) by_steps
    where
      by_steps : {xs ys : List A} → Permᴰ xs ys → length xs ≡ length ys
      by_steps (Permᴰ.trans first second) = omega (arith, by_steps first, by_steps second)
      by_steps (Permᴰ.swap e f) = refl
      by_steps (Permᴰ.cons e shorter) = omega (arith, by_steps shorter)
      by_steps Permᴰ.nil = refl

  pub empty : (a : List A) → length a ≡ 0 → a ≡ []
  empty [] h = refl
  empty (x ∷ a) h = ground (arith, h)

module _ {A : Type 0} (key : A → ℕ) where
  -- No element's key is less.
  abbrev pub Above : ℕ → List A → Type 0
  Above n = All (λ x. n ≤ key x)

  -- From the greatest key on.
  abbrev pub IsRanked : List A → Type 0
  IsRanked [] = Unit
  IsRanked (x ∷ xs) = All (λ y. key y ≤ key x) xs × IsRanked xs

  Above-prop : (n : ℕ) (xs : List A) → IsProp (Above n xs)
  Above-prop n [] = hlevel
  Above-prop n (x ∷ xs) = λ a b i. (le_prop a.0 b.0 i, Above-prop n xs a.1 b.1 i)

  Above-Permᴰ : (n : ℕ) {a b : List A} → Permᴰ a b → Above n a → Above n b
  Above-Permᴰ n Permᴰ.nil h = h
  Above-Permᴰ n (Permᴰ.cons e p) (h, hs) = (subst (λ z. n ≤ key z) e h, Above-Permᴰ n p hs)
  Above-Permᴰ n (Permᴰ.swap e f) (h, (k, hs)) =
      (subst (λ z. n ≤ key z) f k, (subst (λ z. n ≤ key z) e h, hs))
  Above-Permᴰ n (Permᴰ.trans p q) h = Above-Permᴰ n q (Above-Permᴰ n p h)

  pub Above-perm : (n : ℕ) {a b : List A} → Perm a b → Above n a → Above n b
  Above-perm n {b} p h = ∥∥₁_elim p (Above-prop n b) (λ d. Above-Permᴰ n d h)

  pub Above-lower : (m n : ℕ) (xs : List A) → m ≤ n → Above n xs → Above m xs
  Above-lower m n xs h = All-map xs (λ x k. omega (arith, h, k))

  pub Above-set : (n : ℕ) (a : List A) (m : A) → n ≤ key m → Above n a → Above n (set a 0 m)
  unfolding set
  Above-set n [] m h k = tt
  Above-set n (x ∷ a) m h (k, ks) = (h, ks)

  pub Above-cells : (n : ℕ) (a : List A) → ((i : ℕ) → i < length a → n ≤ key_at key a i) → Above n a
  unfolding key_at get_elem?
  Above-cells n [] h = tt
  Above-cells n (x ∷ a) h =
      (h 0 (omega arith), Above-cells n a (λ i p. h (suc i) (omega (arith, p))))

  pub Above-root : (n : ℕ) (a : List A) → 0 < length a → Above n a → n ≤ key_at key a 0
  unfolding key_at get_elem?
  Above-root n [] p h = absurd (omega arith)
  Above-root n (x ∷ a) p h = h.0

  pub heap-Above : (a : List A) → IsHeap key (length a) a → Above (key_at key a 0) a
  heap-Above a h = Above-cells (key_at key a 0) a (λ i p. root_least key (length a) a i h p)
