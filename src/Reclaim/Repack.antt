-- ===== src/Reclaim/Repack.antt =====
-- store/reclaim/repack.go: moving live records into few slabs. Durations are left out.
pub mod Release
pub mod Retire
pub mod Order
use mnemosia.Prelude.{
  ℕ, ◌+◌, ◌*◌, ◌%◌, ◌^◌, Bool, true, false, not, leb, List, [], ◌∷◌, Option, none, some, ◌==◌,
  nat_eq, string_keys, contains, include, map_put, map_get, size, length, map, String,
  if◌then◌else◌,
}
use mnemosia.Prelude.Exec.{Exec, pure, fail, check_none, ◌>>=◌, ◌>>◌}
use mnemosia.Sia.Names.{SlabId, ObjectRef, Account, free}
use mnemosia.Store.{Blob, Written, Flush, bytes_of, put_batch}
use mnemosia.Service.{
  Error, not_ours_to_release, wrong_count, Env, Reporting, account, download, callback,
  delete_objects, ask, act, within, report_as,
}
use mnemosia.Reclaim.Plan.{Slab, releasable}
use mnemosia.Reclaim.Sweep.{Device, Method, tracked, track, unpin}

-- A record id is 16 bytes, here as a number.
pub record Held : Type 0 where
  pub id : ℕ
  pub cid : String
  pub ref : ObjectRef
  pub slab_id : SlabId

pub record Moved : Type 0 where
  pub id : ℕ
  pub cid : String
  pub from : ObjectRef
  pub to : ObjectRef
  pub slab_id : SlabId
  pub bytes : ℕ

pub record Repack : Type 0 where
  pub records : List Moved
  pub slabs_before : ℕ
  pub slabs_after : ℕ
  pub peak : ℕ
  pub before : Account
  pub after : Account

abbrev no_account : Account
no_account = record { ready = false; pinned_data = 0; pinned_size = 0; max_pinned_data = 0 }

abbrev pub no_repack : Repack
no_repack = record {
  records = [];
  slabs_before = 0;
  slabs_after = 0;
  peak = 0;
  before = no_account;
  after = no_account;
}

-- `from`: the slabs, but for "", that the records sit on.
unfoldable pub sources : List Held → List SlabId → List SlabId
sources [] from = from
sources (item ∷ rest) from =
    sources rest (if item.slab_id == "" then from else include item.slab_id from)

-- `ours` maps a tracked slab to whether this device may release it.
unfoldable pub ours_of : List Slab → List (SlabId × Bool) → List (SlabId × Bool)
ours_of [] ours = ours
ours_of (s ∷ rest) ours = ours_of rest (map_put ours s.id (releasable s))

-- `ours[id]`, false where it is missing
unfoldable pub owned : List (SlabId × Bool) → SlabId → Bool
owned ours id = elim (map_get ours id) [ none ↦ false | some b ↦ b ]

unfoldable pub count_foreign : List (SlabId × Bool) → List SlabId → ℕ
count_foreign ours [] = 0
count_foreign ours (id ∷ rest) =
    let others = count_foreign ours rest in if owned ours id then others else others + 1

unfoldable pub check_owned : List Slab → List SlabId → Option Error
check_owned rows slabs =
    if nat_eq (count_foreign (ours_of rows []) slabs) 0 then none else some not_ours_to_release

unfoldable pub move_records : List Held → List Written → List Moved
move_records [] written = []
move_records held [] = []
move_records (h ∷ held) (w ∷ written) =
    record {
      id = h.id;
      cid = w.cid;
      from = h.ref;
      to = w.object_ref;
      slab_id = w.slab_id;
      bytes = w.bytes;
    }
    ∷ move_records held written

module _ (env : Env) where
  unfoldable pub owns_all : List SlabId → Method (Unit {0})
  owns_all [] = pure tt
  owns_all slabs = do rows ← tracked env; check_none (check_owned rows slabs)

  unfoldable pub read_all : List Held → Method (List Blob)
  read_all [] = pure []
  read_all (item ∷ rest) = do
    payload ← ask (download item.ref) (λ calls. env.on_download calls item.ref)
    blobs ← read_all rest
    pure (record { cid = item.cid; payload = payload } ∷ blobs)

  unfoldable pub track_all : List SlabId → ℕ → ℕ → Method (Unit {0})
  track_all [] records bytes = pure tt
  track_all (id ∷ rest) records bytes = do track env id records bytes; track_all rest records bytes

  -- The slabs that the records came from, but for those that were written to again.
  unfoldable pub unpin_sources : List SlabId → List SlabId → Method (Unit {0})
  unpin_sources written [] = pure tt
  unpin_sources written (id ∷ rest) = do
    if contains written id then pure tt else unpin env id
    unpin_sources written rest

  -- What follows once the caller's catalog names the new locations.
  unfoldable pub retire : List Held → List SlabId → Flush → Method (Unit {0})
  retire held from flushed = do
    act env (delete_objects (map (λ h. h.ref) held))
    unpin_sources flushed.slabs from

  -- What follows once the new objects are written and pinned.
  unfoldable pub settle : List Held → Flush → Exec (Reporting Device Repack) Error (Unit {0})
  settle held flushed = do
    check_none (if nat_eq (length flushed.written) (length held) then none else some wrong_count)
    let moved = move_records held flushed.written
    report_as (λ r. record r { records = moved })
    within (track_all flushed.slabs (length held) (bytes_of flushed.written))
    within (act env (callback (map (λ m. m.to) moved)))

  unfoldable pub rewrite : List Held → List SlabId → Exec (Reporting Device Repack) Error Flush
  rewrite held from = do
    within (owns_all from)
    before ← within (ask account env.on_account)
    report_as (λ r. record r { before = before })
    blobs ← within (read_all held)
    flushed ← within (put_batch env blobs)
    report_as (λ r. record r {
      slabs_after = length flushed.slabs;
      peak = length from + length flushed.slabs;
    })
    pure flushed

  unfoldable pub repack_held :
      List Held → List SlabId → Exec (Reporting Device Repack) Error (Unit {0})
  repack_held held from = do
    report_as (λ r. record r { slabs_before = length from })
    flushed ← rewrite held from
    settle held flushed
    within (retire held from flushed)
    after ← within (ask account env.on_account)
    report_as (λ r. record r { after = after })

  unfoldable pub repack : List Held → Exec (Reporting Device Repack) Error (Unit {0})
  repack [] = pure tt
  repack held = repack_held held (sources held [])

pub record WatermarkCheck : Type 0 where
  pub due : Bool
  pub affordable : Bool
  pub headroom : ℕ

-- `Watermark`. The share of the quota that is used is a float: its comparison with the
-- watermark is a parameter, on the quota that is used and the quota that there is.
unfoldable pub watermark : (ℕ → ℕ → Bool) → Account → ℕ → ℕ → WatermarkCheck
watermark is_due a slabs slab_bytes =
    let headroom = slabs * slab_bytes % 2 ^ 64 in
    if nat_eq a.max_pinned_data 0
    then record { due = false; affordable = false; headroom = headroom }
    else record {
      due = is_due a.pinned_data a.max_pinned_data;
      affordable = leb headroom (free a);
      headroom = headroom;
    }
