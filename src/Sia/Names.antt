-- ===== src/Sia/Names.antt =====
-- sia: the names that the storage layer gives things, and an account's quota (sia/account.go).
use mnemosia.Prelude.{ℕ, ◌-◌, String, Bool, leb, if◌then◌else◌}

-- A slab's id is a string, "" where there is none; an object's is a 256-bit hash, as a number.
abbrev pub SlabId : Type 0
SlabId = String

abbrev pub ObjectRef : Type 0
ObjectRef = ℕ

pub record StoredObject : Type 0 where
  pub ref : ObjectRef
  pub slab : SlabId
  pub bytes : ℕ

pub record Account : Type 0 where
  pub ready : Bool
  pub pinned_data : ℕ
  pub pinned_size : ℕ
  pub max_pinned_data : ℕ

unfoldable pub free : Account → ℕ
free a = if leb a.max_pinned_data a.pinned_data then 0 else a.max_pinned_data - a.pinned_data
