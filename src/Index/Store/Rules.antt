-- ===== src/Index/Store/Rules.antt =====
-- What each call on the files of the index leaves on the disk, whatever the system answers.
use mnemosia.Prelude.{ℕ, ◌+◌, ◌≡◌, refl, List, Option, none, some, take}
use mnemosia.Prelude.Exec.{Result, ok, err, Post, Runs}
use mnemosia.Index.Entry.{Entry, Error, Sealer, encode_entry}
use mnemosia.Index.Entry.RoundTrip.{Fits, IsSound, IsLine, encode_entry-IsLine}
use mnemosia.Index.Store.{Disk, Store, System, call_answer, write_answer, call, write, encode}

pub record OnDisk (P : Disk → Type 0) (s : Store) : Type 0 where
  pub held : P s.disk

module _ (P Q R : Disk → Type 0) where
  called :
      (f : Disk → Disk) (o : Option Error) (s : Store)
      → ((d : Disk) → P d → Q (f d))
      → ((d : Disk) → P d → R d)
      → OnDisk P s
      → Post (λ _ s. OnDisk Q s) (λ _ s. OnDisk R s) (call_answer o f s)
  unfolding call_answer
  called f none s done failed h = record { held = done s.disk h.held }
  called f (some e) s done failed h = record { held = failed s.disk h.held }

  wrote :
      (f : List ℕ → Disk → Disk) (bytes : List ℕ) (o : Option (ℕ × Error)) (s : Store)
      → ((d : Disk) → P d → Q (f bytes d))
      → ((d : Disk) (n : ℕ) → P d → R (f (take n bytes) d))
      → OnDisk P s
      → Post (λ _ s. OnDisk Q s) (λ _ s. OnDisk R s) (write_answer o f bytes s)
  unfolding write_answer
  wrote f bytes none s done failed h = record { held = done s.disk h.held }
  wrote f bytes (some (n, e)) s done failed h = record { held = failed s.disk n h.held }

module _ {P Q R : Disk → Type 0} where
  pub call-Runs :
      (system : System) (f : Disk → Disk)
      → ((d : Disk) → P d → Q (f d))
      → ((d : Disk) → P d → R d)
      → Runs (OnDisk P) (call system f) (λ _ s. OnDisk Q s) (λ _ s. OnDisk R s)
  unfolding call
  call-Runs system f done failed = record {
    at = λ s h.
        called P Q R f (system.on_call s.calls) (record s { calls = s.calls + 1 }) done failed
          (record { held = h.held });
  }

  pub write-Runs :
      (system : System) (f : List ℕ → Disk → Disk) (bytes : List ℕ)
      → ((d : Disk) → P d → Q (f bytes d))
      → ((d : Disk) (n : ℕ) → P d → R (f (take n bytes) d))
      → Runs (OnDisk P) (write system f bytes) (λ _ s. OnDisk Q s) (λ _ s. OnDisk R s)
  unfolding write
  write-Runs system f bytes done failed = record {
    at = λ s h.
        wrote P Q R f bytes (system.on_write s.calls) (record s { calls = s.calls + 1 }) done failed
          (record { held = h.held });
  }

module _ (sealer : Sealer) (sound : IsSound sealer) (P : Disk → Type 0) where
  encoded :
      (n : ℕ) (e : Entry) (r : Result Error (List ℕ)) (s : Store)
      → Fits e
      → encode_entry sealer n e ≡ r
      → OnDisk P s
      → Post (λ line s. IsLine sealer e line × OnDisk P s) (λ _ s. OnDisk P s) (r, s)
  encoded n e (ok line) s fits made h = (encode_entry-IsLine sealer n e line sound fits made, h)
  encoded n e (err x) s fits made h = h

module _ (sealer : Sealer) (sound : IsSound sealer) {P : Disk → Type 0} where
  -- The line of an entry that fits.
  pub encode-Runs :
      (e : Entry)
      → Fits e
      → Runs
          (OnDisk P)
          (encode sealer e)
          (λ line s. IsLine sealer e line × OnDisk P s)
          (λ _ s. OnDisk P s)
  unfolding encode
  encode-Runs e fits = record {
    at = λ s h.
        encoded sealer sound P s.calls e (encode_entry sealer s.calls e)
          (record s { calls = s.calls + 1 }) fits refl (record { held = h.held });
  }
