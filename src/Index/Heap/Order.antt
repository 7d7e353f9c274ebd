-- ===== src/Index/Heap/Order.antt =====
-- The order of a heap: its elements have keys, and a parent's is never above a child's.
use mathlib.Core.List.{Perm}
use mathlib.Core.List.Perm as Permutation
use mnemosia.Prelude.{
  ℕ, zero, suc, ◌<◌, ◌≤◌, ◌≡◌, refl, ap, ◌∙◌, ltb, nat_eq, Bool, true, false, List, Option, none,
  some, length, if◌then◌else◌, arith,
}
use mnemosia.Index.Heap.{◌>>=◌, parent, less_at}
use mnemosia.Index.Heap.Cells.{get_elem?, within, IsSwap, Yields, yields}

module _ {ℓ κ} {A : Type ℓ} {P : A → Type κ} where
  pub Yields-bind {ℓ' κ'} :
      {B : Type ℓ'} {Q : B → Type κ'} {o : Option A} {f : A → Option B}
      → Yields P o
      → ((a : A) → P a → Yields Q (f a))
      → Yields Q (o >>= f)
  Yields-bind (yields p) k = k _ p

  pub Yields-map {κ'} :
      {Q : A → Type κ'} {o : Option A} → ((a : A) → P a → Q a) → Yields P o → Yields Q o
  Yields-map k (yields p) = yields (k _ p)

  pub Yields-if :
      {x y : Option A} (b : Bool)
      → (b ≡ true → Yields P x)
      → (b ≡ false → Yields P y)
      → Yields P (if b then x else y)
  Yields-if true p q = p refl
  Yields-if false p q = q refl

module _ {A : Type 0} (key : A → ℕ) where
  unfoldable pub key_or : Option A → ℕ
  key_or none = 0
  key_or (some x) = key x

  unfoldable pub key_at : List A → ℕ → ℕ
  unfolding key_or
  key_at a i = key_or (get_elem? a i)

  pub key_at-some : (a : List A) (i : ℕ) (x : A) → get_elem? a i ≡ some x → key_at a i ≡ key x
  unfolding key_at key_or
  key_at-some a i x h = ap key_or h

  -- Below `n`, every element stands at or above its parent.
  abbrev pub IsHeap : ℕ → List A → Type 0
  IsHeap n a = (c : ℕ) → 0 < c → c < n → key_at a (parent c) ≤ key_at a c

  -- Where the element at `i` were taken out, its children would be in order under its parent.
  abbrev pub IsBridged : ℕ → List A → ℕ → Type 0
  IsBridged n a i =
      (c : ℕ) → 0 < c → c < n → parent c ≡ i → 0 < i → key_at a (parent i) ≤ key_at a c

  pub swap_key :
      (a b : List A) (i j : ℕ)
      → IsSwap a i j b
      → (c : ℕ)
      → key_at b c
        ≡ (if nat_eq j c then key_at a i else if nat_eq i c then key_at a j else key_at a c)
  unfolding key_at
  swap_key a b i j s c = ground (arith, s.cell c)

  root_least_below :
      (fuel n : ℕ) (a : List A) (i : ℕ) → IsHeap n a → i < fuel → i < n → key_at a 0 ≤ key_at a i
  root_least_below zero n a i h f p = absurd (omega arith)
  root_least_below (suc fuel) n a i h f p =
      ground (arith, h i, root_least_below fuel n a (parent i) h)

  pub root_least : (n : ℕ) (a : List A) (i : ℕ) → IsHeap n a → i < n → key_at a 0 ≤ key_at a i
  root_least n a i h p = root_least_below (suc i) n a i h (omega arith) p

module _ {A : Type 0} (less : A → A → Bool) (key : A → ℕ)
    (ordered : (x y : A) → less x y ≡ ltb (key x) (key y)) where
  pub less_at-keys :
      (a : List A) (i j : ℕ)
      → i < length a
      → j < length a
      → less_at less a i j ≡ some (ltb (key_at key a i) (key_at key a j))
  unfolding less_at
  less_at-keys a i j hi hj =
      let (x, atx) = within a i hi in
      let (y, aty) = within a j hj in
      rw (atx, aty, key_at-some key a i x atx, key_at-some key a j y aty) (ap some (ordered x y))

-- `b` has the elements of `a`, those from `n` on in their cells, and is in order below `n`.
module _ {A : Type 0} (key : A → ℕ) where
  pub record Sifted (n : ℕ) (a b : List A) : Type 0 where
    pub heap : IsHeap key n b
    pub size : length b ≡ length a
    pub past : (c : ℕ) → n ≤ c → get_elem? b c ≡ get_elem? a c
    pub same : Perm b a

  pub Sifted-refl : (n : ℕ) (a : List A) → IsHeap key n a → Sifted n a a
  Sifted-refl n a h = record {
    heap = h;
    size = refl;
    past = λ c p. refl;
    same = Permutation.refl a;
  }

  pub Sifted-after :
      (n : ℕ) (a b d : List A) (i j : ℕ)
      → i < n
      → j < n
      → IsSwap a i j b
      → Sifted n b d
      → Sifted n a d
  Sifted-after n a b d i j hi hj s k = record {
    heap = k.heap;
    size = k.size ∙ s.size;
    past = λ c p. k.past c p ∙ ground (arith, s.cell c);
    same = Permutation.trans k.same s.same;
  }
