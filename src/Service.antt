-- ===== src/Service.antt =====
-- The calls that the vault's components make of the indexer, of their database and of a caller's
-- callback, and an environment that answers them. An answer may depend on all earlier calls, so an
-- environment is any service that is driven by these components, failures included.
pub mod Keeps
use mnemosia.Prelude.{ℕ, List, [], ◌∷◌, Option, none, some, String}
use mnemosia.Prelude.Exec.{Result, ok, err, Exec}
use mnemosia.Sia.Names.{SlabId, ObjectRef, Account}
use mnemosia.Sia.Walk.{Event}

-- What the operations on conversations call, and so much of the arguments as their answers turn on.
pub data VaultCall : Type 0 where
  -- the reader of random bytes, the hash and the cipher, and the model
  new_id : VaultCall
  hash_body seal_body : List ℕ → VaultCall
  embed_text : String → VaultCall
  -- statements on the tables of bodies, of heads and of metadata
  put_body forget_body select_body select_head upsert_head delete_head put_ranking forget_ranking :
      ℕ → VaultCall
  -- the vectors, the catalog, and the wait for the network's first funding
  remove_vector remove_entry : ℕ → VaultCall
  put_vector : ℕ → List ℕ → VaultCall
  await_first_write : VaultCall
  -- the ids of the bodies of one kind
  list_bodies : String → VaultCall

pub data Call : Type 0 where
  -- of the indexer
  account walk pinned_slabs : Call
  delete_objects : List ObjectRef → Call
  unpin_slab : SlabId → Call
  download : ObjectRef → Call
  finalize_upload : List (List ℕ) → Call
  pin_slabs : List SlabId → Call
  pin_objects : List ObjectRef → Call
  -- of a caller's function `apply`, with the objects that it is told of
  callback : List ObjectRef → Call
  -- of the function that a packer calls after a flush, with the ids of the flush's records
  of_flush : List ℕ → Call
  -- statements on the tables `slabs` and `slab_cache`
  select_slabs : Call
  upsert_slab delete_slab delete_slab_meta : SlabId → Call
  -- statements on the table `queue`
  insert_queued : ℕ → Call
  claim_queued select_queue : Call
  release_queued drop_queued : List ℕ → Call
  of_vault : VaultCall → Call

-- `failed` carries what a service said.
pub data Error : Type 0 where
  negative_catalogue empty_catalogue no_objects missing_objects no_slabs : Error
  empty_walk not_ours_to_release wrong_count offline : Error
  failed : ℕ → Error

-- The latest call first.
abbrev pub Calls : Type 0
Calls = List Call

pub record Env : Type 0 where
  pub on_account : Calls → Result Error Account
  pub on_walk : Calls → Result Error (List (List Event))
  pub on_pinned_slabs : Calls → Result Error (List SlabId)
  pub on_download : Calls → ObjectRef → Result Error (List ℕ)
  -- The reference of each object that an upload made, and the slab of each of its slices.
  pub on_finalize : Calls → List (List ℕ) → Result Error (List (ObjectRef × List SlabId))
  -- A call that answers with an error at most.
  pub on_act : Calls → Call → Option Error
  -- The clock, in milliseconds.
  pub now : Calls → ℕ

-- The device's tables, and the calls so far.
pub record World (D : Type 0) : Type 0 where
  pub device : D
  pub calls : Calls

abbrev pub begin : {D : Type 0} → D → World D
begin d = record { device = d; calls = [] }

module _ {D : Type 0} where
  unfoldable pub ask : {A : Type 0} → Call → (Calls → Result Error A) → Exec (World D) Error A
  ask c answer w = (answer w.calls, record w { calls = c ∷ w.calls })

  statement_answer : Option Error → (D → D) → World D → Result Error (Unit {0}) × World D
  statement_answer none f w = (ok tt, record w { device = f w.device })
  statement_answer (some e) f w = (err e, w)

  -- A statement that changes the tables, unless it fails.
  unfoldable pub statement : Env → Call → (D → D) → Exec (World D) Error (Unit {0})
  unfolding statement_answer
  statement env c f w = statement_answer (env.on_act w.calls c) f (record w { calls = c ∷ w.calls })

  -- A call for its effect elsewhere.
  unfoldable pub act : Env → Call → Exec (World D) Error (Unit {0})
  unfolding statement
  act env c = statement env c (λ d. d)

-- A method that fills in a report beside its work on the world.
pub record Reporting (D R : Type 0) : Type 0 where
  pub world : World D
  pub report : R

module _ {D R A : Type 0} where
  put_world : R → Result Error A × World D → Result Error A × Reporting D R
  put_world r (a, w) = (a, record { world = w; report = r })

  unfoldable pub within : Exec (World D) Error A → Exec (Reporting D R) Error A
  unfolding put_world
  within m s = put_world s.report (m s.world)

module _ {D R : Type 0} where
  unfoldable pub report_as : (R → R) → Exec (Reporting D R) Error (Unit {0})
  report_as f s = (ok tt, record s { report = f s.report })
