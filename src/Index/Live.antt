-- ===== src/Index/Live.antt =====
-- index/index.go: the vectors in memory, one flat matrix with the record ids beside its rows.
-- `F` is float32, of which nothing but its copying is used. The lock has no part in it.
pub mod Rows
pub mod Refines
use mnemosia.Prelude.{
  ℕ, suc, zero, ◌+◌, ◌*◌, Bool, true, false, List, [], ◌∷◌, ◌++◌, Option, none, some, String,
  string_keys, number_keys, ◌==◌, nat_eq, length, take, drop, map_get, map_put, if◌then◌else◌,
}
use mnemosia.Prelude.Exec.{Result, ok, err}

pub record Index (F : Type 0) : Type 0 where
  pub dim : ℕ
  pub model : String
  pub ids : List ℕ
  pub vectors : List F
  pub at : List (ℕ × ℕ)

pub data Refused : Type 0 where
  foreign_model wrong_width : Refused

-- `copy(dst[from:to], src)`, where the slice is within `dst` and `src` fills it.
abbrev pub overlay {ℓ} : {A : Type ℓ} → ℕ → ℕ → List A → List A → List A
overlay from to src dst = take from dst ++ (src ++ drop to dst)

unfoldable pub is_held : Option ℕ → Bool
is_held none = false
is_held (some position) = true

module _ {F : Type 0} where
  -- `New`
  unfoldable pub new_index : String → ℕ → Index F
  new_index model dim = record { dim = dim; model = model; ids = []; vectors = []; at = [] }

  unfoldable pub len : Index F → ℕ
  len i = length i.ids

  unfoldable pub has : ℕ → Index F → Bool
  has id i = is_held (map_get i.at id)

  unfoldable pub store : Option ℕ → ℕ → List F → Index F → Index F
  store (some position) id vector i = record i {
    vectors = overlay (position * i.dim) (suc position * i.dim) vector i.vectors;
  }
  store none id vector i = record i {
    at = map_put i.at id (length i.ids);
    ids = i.ids ++ id ∷ [];
    vectors = i.vectors ++ vector;
  }

  unfoldable pub add : ℕ → String → List F → Index F → Result Refused (Index F)
  add id model vector i =
      if model == i.model
      then if nat_eq (length vector) i.dim
        then ok (store (map_get i.at id) id vector i)
        else err wrong_width
      else err foreign_model
