-- ===== src/Index/Heap.antt =====
-- container/heap over a slice, as index/search.go uses it: `Push`, `Pop` and `Fix`. `none` is a panic,
-- or fuel that has run out; the slices are far shorter than `int` reaches.
pub mod Cells
pub mod Order
pub mod Up
pub mod Down
pub mod Whole
use mnemosia.Prelude.{
  ℕ, zero, suc, ◌+◌, ◌-◌, ◌*◌, ◌/◌, ltb, leb, nat_eq, Bool, List, [], ◌∷◌, ◌++◌, Option, none, some,
  length, take, if◌then◌else◌,
}
use mnemosia.Index.Heap.Cells.{get_elem?, swap}

infixl 10 ◌>>=◌
abbrev pub ◌>>=◌ {ℓ κ} : {A : Type ℓ} {B : Type κ} → Option A → (A → Option B) → Option B
some a >>= f = f a
none >>= f = none

abbrev pub parent : ℕ → ℕ
parent c = (c - 1) / 2

module _ {A : Type 0} (less : A → A → Bool) where
  -- `h.Less(i, j)`
  unfoldable pub less_at : List A → ℕ → ℕ → Option Bool
  less_at h i j = do x ← get_elem? h i; y ← get_elem? h j; some (less x y)

  unfoldable pub up_loop : ℕ → List A → ℕ → Option (List A)
  up_loop zero h j = none
  up_loop (suc fuel) h j =
      let rise = swap h (parent j) j >>= λ g. up_loop fuel g (parent j) in
      let step = less_at h j (parent j) >>= λ smaller. if smaller then rise else some h in
      if nat_eq (parent j) j then some h else step

  unfoldable pub up : List A → ℕ → Option (List A)
  up h j = up_loop (suc j) h j

  -- The left child, or the right one where it is there and comes first.
  unfoldable pub lower_child : List A → ℕ → ℕ → Option ℕ
  lower_child h i n =
      let left = 2 * i + 1 in
      if ltb (left + 1) n
      then (less_at h (left + 1) left >>= λ right. some (if right then left + 1 else left))
      else some left

  -- The slice, and where the element came to rest.
  unfoldable pub down_loop : ℕ → List A → ℕ → ℕ → Option (List A × ℕ)
  down_loop zero h i n = none
  down_loop (suc fuel) h i n =
      let step : Option (List A × ℕ) = do
        j ← lower_child h i n
        smaller ← less_at h j i
        let sink = swap h i j >>= λ g. down_loop fuel g j n
        if smaller then sink else some (h, i)
      in if leb n (2 * i + 1) then some (h, i) else step

  unfoldable pub down : List A → ℕ → ℕ → Option (List A × Bool)
  down h i n = down_loop (suc n) h i n >>= λ (g, j). some (g, ltb i j)

  -- `heap.Push`
  unfoldable pub push : List A → A → Option (List A)
  push h x = up (h ++ x ∷ []) (length h)

  -- `heap.Pop`, with the `Pop` of the slice, which takes the last element away.
  unfoldable pub pop : List A → Option (A × List A)
  pop h = do
    let n = length h - 1
    g ← swap h 0 n
    (sunk, _) ← down g 0 n
    x ← get_elem? sunk n
    some (x, take n sunk)

  -- `heap.Fix`
  unfoldable pub fix : List A → ℕ → Option (List A)
  fix h i = do (g, moved) ← down h i (length h); if moved then some g else up g i
