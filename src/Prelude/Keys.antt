-- ===== src/Prelude/Keys.antt =====
-- Types with a decided equality, and Go's sets and maps over them as lists.
use Prim.Native.Nat.{ℕ, suc, ◌+◌}
use Prim.Native.String.{String}
use mathlib.Core.Path.{◌≡◌, refl}
use mathlib.Core.Logic.{◌↔◌}
use mathlib.Core.Bool.{Bool, true, false, ◌||◌}
use mathlib.Core.Option.{Option, none, some}
use mathlib.Core.List.{List, [], ◌∷◌, ◌++◌}
use native.Mathlib.Omega.{arith}
use text.Mathlib.Text.{◌==◌ as str_eq}
use text.Mathlib.TextEquality.{eq_iff}
use mnemosia.Prelude.Tests.{nat_eq, nat_eq_iff, if◌then◌else◌}

-- Whether some element passes the test.
abbrev pub any_of {ℓ} : {A : Type ℓ} → (A → Bool) → List A → Bool
any_of p [] = false
any_of p (x ∷ xs) = p x || any_of p xs

abbrev pub count_if {ℓ} : {A : Type ℓ} → (A → Bool) → List A → ℕ
count_if p [] = 0
count_if p (x ∷ xs) = (if p x then 1 else 0) + count_if p xs

-- A type whose values Go compares by `==`.
pub record Comparable {ℓ} (K : Type ℓ) : Type ℓ where
  pub same_key : K → K → Bool
  pub same_key_iff : (j k : K) → (same_key j k ≡ true) ↔ (j ≡ k)

infix 50 ◌==◌
abbrev pub ◌==◌ {ℓ} : {K : Type ℓ} ⦃c : Comparable K⦄ → K → K → Bool
◌==◌ ⦃c⦄ j k = c.same_key j k

instance abbrev pub string_keys : Comparable String
string_keys = record { same_key_iff = eq_iff; same_key = str_eq }

instance abbrev pub number_keys : Comparable ℕ
number_keys = record { same_key_iff = nat_eq_iff; same_key = nat_eq }

module _ {ℓ} {A : Type ℓ} ⦃c : Comparable A⦄ where
  pub ==_refl : (a : A) → (a == a) ≡ true
  ==_refl a = (c.same_key_iff a a).1 refl

  -- `_, ok := set[a]`
  unfoldable pub contains : List A → A → Bool
  contains [] a = false
  contains (x ∷ xs) a = x == a || contains xs a

  -- `set[a] = struct{}{}`
  unfoldable pub include : A → List A → List A
  unfolding contains
  include a xs = if contains xs a then xs else xs ++ a ∷ []

  -- `len(set)`, of a set written as a list that may repeat a member.
  unfoldable pub size : List A → ℕ
  unfolding contains
  size [] = 0
  size (x ∷ xs) = let rest = size xs in if contains xs x then rest else suc rest

  pub contains-append :
      (xs ys : List A) (a : A) → contains (xs ++ ys) a ≡ (contains xs a || contains ys a)
  unfolding contains
  contains-append [] ys a = refl
  contains-append (x ∷ xs) ys a = ground (arith, contains-append xs ys a)

  pub contains-snoc :
      (xs : List A) (x a : A) → contains (xs ++ x ∷ []) a ≡ (contains xs a || x == a)
  unfolding contains
  contains-snoc xs x a = ground (arith, contains-append xs (x ∷ []) a)

  pub contains-include :
      (x a : A) (xs : List A) → contains (include x xs) a ≡ (x == a || contains xs a)
  unfolding include
  contains-include x a xs = ground (arith, contains-append xs (x ∷ []) a, c.same_key_iff x a)

module _ {ℓ κ} {K : Type ℓ} {V : Type κ} ⦃c : Comparable K⦄ where
  -- `v, ok := m[k]`
  unfoldable pub map_get : List (K × V) → K → Option V
  map_get [] k = none
  map_get ((j, v) ∷ m) k = if j == k then some v else map_get m k

  -- `m[k] = v`
  unfoldable pub map_put : List (K × V) → K → V → List (K × V)
  map_put [] k v = (k, v) ∷ []
  map_put ((j, w) ∷ m) k v =
      let kept = map_put m k v in if j == k then (j, v) ∷ m else (j, w) ∷ kept

  pub map_get-map_put :
      (m : List (K × V)) (k : K) (v : V) (j : K)
      → map_get (map_put m k v) j ≡ (if k == j then some v else map_get m j)
  unfolding map_get map_put
  map_get-map_put [] k v j = refl
  map_get-map_put ((i, w) ∷ m) k v j =
      ground
        (arith, map_get-map_put m k v j, c.same_key_iff i j, c.same_key_iff k j, c.same_key_iff i k)
