-- ===== src/Index/Heap/Cells.antt =====
-- A slice as a list: its cells by number, and what a write and an exchange do to them.
use mathlib.Core.List.{Perm}
use mathlib.Core.List.Perm as Permutation
use mnemosia.Prelude.{
  ℕ, suc, zero, ◌<◌, ◌≡◌, refl, subst, ◌∙◌, List, [], ◌∷◌, Option, none, some, nat_eq, length,
  if◌then◌else◌, arith,
}

module _ {ℓ} {A : Type ℓ} where
  unfoldable pub get_elem? : List A → ℕ → Option A
  get_elem? [] p = none
  get_elem? (x ∷ cells) zero = some x
  get_elem? (x ∷ cells) (suc p) = get_elem? cells p

  -- `a[p] = new`
  unfoldable pub set : List A → ℕ → A → List A
  set (old ∷ cells) (suc p) new = old ∷ set cells p new
  set (old ∷ cells) zero new = new ∷ cells
  set [] p new = []

  -- `a[i], a[j] = a[j], a[i]`, where `none` is a panic.
  exchange : List A → ℕ → ℕ → Option A → Option A → Option (List A)
  exchange a i j (some x) (some y) = some (set (set a i y) j x)
  exchange a i j _ _ = none

  unfoldable pub swap : List A → ℕ → ℕ → Option (List A)
  unfolding exchange
  swap a i j = exchange a i j (get_elem? a i) (get_elem? a j)

  pub within : (cells : List A) (p : ℕ) → p < length cells → (x : A) × (get_elem? cells p ≡ some x)
  unfolding get_elem?
  within (x ∷ cells) (suc p) h = within cells p (omega (arith, h))
  within (x ∷ cells) zero h = (x, refl)
  within [] p h = absurd (omega (arith, h))

  pub length-set : (cells : List A) (p : ℕ) (new : A) → length (set cells p new) ≡ length cells
  unfolding set
  length-set (old ∷ cells) (suc p) new = omega (arith, length-set cells p new)
  length-set (old ∷ cells) zero new = refl
  length-set [] p new = refl

  pub cell_of_set :
      (cells : List A) (p q : ℕ) (new : A)
      → p < length cells
      → get_elem? (set cells p new) q ≡ (if nat_eq p q then some new else get_elem? cells q)
  unfolding get_elem? set
  cell_of_set (old ∷ cells) (suc p) (suc q) new h =
      ground (arith, cell_of_set cells p q new (omega (arith, h)))
  cell_of_set (old ∷ cells) (suc p) zero new h = ground arith
  cell_of_set (old ∷ cells) zero (suc q) new h = ground arith
  cell_of_set (old ∷ cells) zero zero new h = refl
  cell_of_set [] p q new h = absurd (omega (arith, h))

  -- What was written stands for what was there.
  pub set-perm :
      (cells : List A) (p : ℕ) (old new : A)
      → get_elem? cells p ≡ some old
      → Perm (old ∷ set cells p new) (new ∷ cells)
  unfolding get_elem? set
  set-perm (y ∷ cells) (suc p) old new h =
      Permutation.trans (Permutation.swap y old (set cells p new)) (
        Permutation.trans (Permutation.cons y (set-perm cells p old new h))
          (Permutation.swap new y cells))
  set-perm (y ∷ cells) zero old new h =
      let same : y ≡ old = cc h in
      subst (λ z. Perm (z ∷ new ∷ cells) (new ∷ y ∷ cells)) same (Permutation.swap new y cells)
  set-perm [] p old new h = ground arith

  pub record IsSwap (a : List A) (i j : ℕ) (b : List A) : Type ℓ where
    pub size : length b ≡ length a
    pub cell :
        (c : ℕ)
        → get_elem? b c ≡ (
            if nat_eq j c
            then get_elem? a i
            else if nat_eq i c
            then get_elem? a j
            else get_elem? a c)
    pub same : Perm b a

  exchange-IsSwap :
      (a : List A) (i j : ℕ) (x y : A)
      → i < length a
      → j < length a
      → get_elem? a i ≡ some x
      → get_elem? a j ≡ some y
      → IsSwap a i j (set (set a i y) j x)
  exchange-IsSwap a i j x y hi hj atx aty =
      let written = cell_of_set a i j y hi in
      let still : get_elem? (set a i y) j ≡ some y = ground (arith, written, aty) in
      record {
        size = length-set (set a i y) j x ∙ length-set a i y;
        cell = λ c. ground (
          arith,
          cell_of_set (set a i y) j c x (omega (arith, length-set a i y)),
          cell_of_set a i c y hi,
          atx,
          aty,
        );
        same =
            Permutation.cons_inv
              (Permutation.trans (set-perm (set a i y) j y x still) (set-perm a i x y atx));
      }

-- The call returns, with a value of which `P` holds.
pub data Yields {ℓ κ} {A : Type ℓ} (P : A → Type κ) : Option A → Type (ℓ ⊔ κ) where
  yields : {a : A} → P a → Yields P (some a)

module _ {ℓ} {A : Type ℓ} (a : List A) (i j : ℕ) (hi : i < length a) (hj : j < length a) where
  pub swap-IsSwap : Yields (IsSwap a i j) (swap a i j)
  unfolding swap exchange
  swap-IsSwap =
      let (x, atx) = within a i hi in
      let (y, aty) = within a j hj in
      rw (atx, aty) (yields (exchange-IsSwap a i j x y hi hj atx aty))
