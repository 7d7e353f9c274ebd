-- ===== src/Manifest/Log/Rules.antt =====
-- What the calls on the files do to a predicate on the files.
use mnemosia.Prelude.{ℕ, ◌+◌, ◌≡◌, refl, sym, subst, List, Option, none, some, take}
use mnemosia.Prelude.Exec.{Result, ok, err, Runs, Post, modify}
use mnemosia.Manifest.Entry.{Entry}
use mnemosia.Manifest.Lines.{Codec, Error, encode_entry}
use mnemosia.Manifest.Log.{Disk, Log, FileSystem, call_answer, write_answer, call, write, encode}

pub record OnDisk (P : Disk → Type 0) (l : Log) : Type 0 where
  pub holds : P l.disk

call_answer-Post :
    (P Q R : Disk → Type 0) (o : Option Error) (f : Disk → Disk) (l : Log)
    → P l.disk
    → ((d : Disk) → P d → R d)
    → ((d : Disk) → P d → Q (f d))
    → Post (λ _ s. OnDisk Q s) (λ _ s. OnDisk R s) (call_answer o f l)
unfolding call_answer
call_answer-Post P Q R none f l h up step = record { holds = step l.disk h }
call_answer-Post P Q R (some e) f l h up step = record { holds = up l.disk h }

write_answer-Post :
    (P Q R : Disk → Type 0) (o : Option (ℕ × Error)) (f : List ℕ → Disk → Disk) (bytes : List ℕ)
    (l : Log)
    → P l.disk
    → ((d : Disk) (n : ℕ) → P d → R (f (take n bytes) d))
    → ((d : Disk) → P d → Q (f bytes d))
    → Post (λ _ s. OnDisk Q s) (λ _ s. OnDisk R s) (write_answer o f bytes l)
unfolding write_answer
write_answer-Post P Q R none f bytes l h cut step = record { holds = step l.disk h }
write_answer-Post P Q R (some (n, e)) f bytes l h cut step = record { holds = cut l.disk n h }

module _ (files : FileSystem) {P Q R : Disk → Type 0} where
  pub Runs-call :
      (f : Disk → Disk)
      → ((d : Disk) → P d → R d)
      → ((d : Disk) → P d → Q (f d))
      → Runs (OnDisk P) (call files f) (λ _ s. OnDisk Q s) (λ _ s. OnDisk R s)
  unfolding call
  Runs-call f up step = record {
    at = λ l h.
        call_answer-Post P Q R (files.on_call l.calls) f (record l { calls = l.calls + 1 }) h.holds
          up step;
  }

  pub Runs-write :
      (f : List ℕ → Disk → Disk) (bytes : List ℕ)
      → ((d : Disk) (n : ℕ) → P d → R (f (take n bytes) d))
      → ((d : Disk) → P d → Q (f bytes d))
      → Runs (OnDisk P) (write files f bytes) (λ _ s. OnDisk Q s) (λ _ s. OnDisk R s)
  unfolding write
  Runs-write f bytes cut step = record {
    at = λ l h.
        write_answer-Post P Q R (files.on_write l.calls) f bytes (record l { calls = l.calls + 1 })
          h.holds cut step;
  }

-- The line is the entry's, sealed at some call.
pub record Encodes (codec : Codec) (e : Entry) (line : List ℕ) : Type 0 where
  pub call : ℕ
  pub gives : encode_entry codec call e ≡ ok line

module _ (codec : Codec) {P R : Disk → Type 0} where
  encoded-Post :
      (e : Entry) (n : ℕ) (r : Result Error (List ℕ)) (l : Log)
      → encode_entry codec n e ≡ r
      → P l.disk
      → ((d : Disk) → P d → R d)
      → Post (λ line s. OnDisk (λ d. P d × Encodes codec e line) s) (λ _ s. OnDisk R s) (r, l)
  encoded-Post e n (ok line) l h p up = record { holds = (p, record { call = n; gives = h }) }
  encoded-Post e n (err x) l h p up = record { holds = up l.disk p }

  pub Runs-encode :
      (e : Entry)
      → ((d : Disk) → P d → R d)
      → Runs
          (OnDisk P)
          (encode codec e)
          (λ line s. OnDisk (λ d. P d × Encodes codec e line) s)
          (λ _ s. OnDisk R s)
  unfolding encode
  Runs-encode e up = record {
    at = λ l h.
        encoded-Post e l.calls (encode_entry codec l.calls e) (record l { calls = l.calls + 1 })
          refl h.holds up;
  }

module _ {P R : Disk → Type 0} where
  pub Runs-modify :
      (f : Log → Log)
      → ((l : Log) → (f l).disk ≡ l.disk)
      → Runs {E = Error} (OnDisk P) (modify f) (λ _ s. OnDisk P s) (λ _ s. OnDisk R s)
  Runs-modify f h = record { at = λ l p. record { holds = subst P (sym (h l)) p.holds } }
