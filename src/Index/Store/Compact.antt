-- ===== src/Index/Store/Compact.antt =====
-- Folding the delta into the base, with a failure at any of its calls.
use mnemosia.Prelude.{
  ℕ, ◌+◌, ◌≡◌, refl, sym, ap, ◌∙◌, subst, List, [], ◌∷◌, ◌++◌, append-nil, append_assoc, take,
  length, All,
}
use mnemosia.Prelude.Exec.{
  Result, Runs, Runs-bind, Runs-given, Runs-modify, Runs-pure, Runs-state, Runs-error, Runs-step,
}
use mnemosia.Index.Entry.{Entry, Error, Sealer, read_entries}
use mnemosia.Index.Entry.RoundTrip.{Fits, IsSound, IsLine}
use mnemosia.Index.Entry.Torn.{Holds, no_entry, one_more, Holds-append, read_entries_whole}
use mnemosia.Index.Store.{
  Disk, Store, System, hydrate, call, to_pending, open_pending, rename_pending, truncate_delta,
  write_entries, install, finish, remove_pending, compact, compact_index,
}
use mnemosia.Index.Store.Book.{
  find, folded, IsDistinct, folded-IsDistinct, folded_again, folded_alone, hydrate-Fits,
}
use mnemosia.Index.Store.Rules.{OnDisk, call-Runs, write-Runs, encode-Runs}

module _ (sealer : Sealer) where
  -- Every record has the entry that it had.
  abbrev pub Recovers : List Entry → Disk → Type 0
  Recovers es d = (id : ℕ) → find id (hydrate sealer d) ≡ find id es

  -- The files that hydration reads are as they were.
  record Untouched (d₀ d : Disk) : Type 0 where
    base : d.base ≡ d₀.base
    delta : d.delta ≡ d₀.delta

  -- The new base is being written beside them.
  record Pending (d₀ : Disk) (es : List Entry) (d : Disk) : Type 0 where
    untouched : Untouched d₀ d
    pending : Holds sealer es d.pending

  -- The new base is in place of the old.
  record Installed (d₀ : Disk) (es : List Entry) (d : Disk) : Type 0 where
    base : Holds sealer es d.base
    delta : d.delta ≡ d₀.delta

module _ (sealer : Sealer) (d₀ : Disk) where
  Untouched-Recovers : (d : Disk) → Untouched sealer d₀ d → Recovers sealer (hydrate sealer d₀) d
  unfolding hydrate
  Untouched-Recovers d h id =
      ap (λ b. find id (hydrate sealer (record d { base = b }))) h.base
      ∙ ap (λ t. find id (hydrate sealer (record d₀ { delta = t }))) h.delta

  Installed-Recovers :
      (d : Disk) → Installed sealer d₀ (hydrate sealer d₀) d → Recovers sealer (hydrate sealer d₀) d
  unfolding hydrate
  Installed-Recovers d h id =
      ap (λ es. find id (folded es (read_entries sealer d.delta)))
        (read_entries_whole sealer (hydrate sealer d₀) d.base h.base)
      ∙ ap (λ t. find id (folded (hydrate sealer d₀) (read_entries sealer t))) h.delta
      ∙ folded_again id (read_entries sealer d₀.base) (read_entries sealer d₀.delta)

  Emptied-Recovers :
      (d : Disk)
      → Installed sealer d₀ (hydrate sealer d₀) d
      → Recovers sealer (hydrate sealer d₀) (truncate_delta d)
  unfolding hydrate
  Emptied-Recovers d h id =
      ap (λ es. find id (folded es (read_entries sealer [])))
        (read_entries_whole sealer (hydrate sealer d₀) d.base h.base)
      ∙ ap (λ es. find id (folded (hydrate sealer d₀) es))
          (read_entries_whole sealer [] [] no_entry)
      ∙ folded_alone id (read_entries sealer d₀.base) (read_entries sealer d₀.delta)

module _ (sealer : Sealer) (system : System) (d₀ : Disk) (sound : IsSound sealer) where
  weaken :
      (es : List Entry) (s : Store)
      → OnDisk (Pending sealer d₀ es) s
      → OnDisk (Untouched sealer d₀) s
  weaken es s h = record { held = h.held.untouched }

  one_line :
      (done : List Entry) (e : Entry) (line : List ℕ)
      → IsLine sealer e line
      → (d : Disk) → Pending sealer d₀ done d
      → Pending sealer d₀ (done ++ e ∷ []) (to_pending line d)
  one_line done e line is d h = record {
    untouched = record { base = h.untouched.base; delta = h.untouched.delta };
    pending =
        subst (λ bytes. Holds sealer (done ++ e ∷ []) (d.pending ++ bytes)) (append-nil line)
          (Holds-append sealer h.pending (one_more e [] line [] is no_entry));
  }

  cut_line :
      (done : List Entry) (line : List ℕ) (d : Disk) (n : ℕ)
      → Pending sealer d₀ done d
      → Untouched sealer d₀ (to_pending (take n line) d)
  cut_line done line d n h = record { base = h.untouched.base; delta = h.untouched.delta }

  write_entries-Pending :
      (es done : List Entry) (n : ℕ)
      → All Fits es
      → Runs
          (OnDisk (Pending sealer d₀ done))
          (write_entries sealer system es n)
          (λ _ s. OnDisk (Pending sealer d₀ (done ++ es)) s)
          (λ _ s. OnDisk (Untouched sealer d₀) s)
  unfolding write_entries
  write_entries-Pending [] done n fits =
      Runs-pure n λ s h. subst (λ es. OnDisk (Pending sealer d₀ es) s) (sym (append-nil done)) h
  write_entries-Pending (e ∷ es) done n fits =
      Runs-bind (Runs-error (weaken done) (encode-Runs sealer sound e fits.0)) λ line.
        Runs-given λ is.
          Runs-bind
            (write-Runs system to_pending line (one_line done e line is) (cut_line done line))
            λ _.
              subst
                (λ all.
                  Runs (OnDisk (Pending sealer d₀ (done ++ e ∷ [])))
                    (write_entries sealer system es (n + length line))
                    (λ _ s. OnDisk (Pending sealer d₀ all) s)
                    (λ _ s. OnDisk (Untouched sealer d₀) s))
                (append_assoc done (e ∷ []) es)
                (write_entries-Pending es (done ++ e ∷ []) (n + length line) fits.1)

  abbrev Recovered : Disk → Type 0
  Recovered = Recovers sealer (hydrate sealer d₀)

  abbrev Whole : Disk → Type 0
  Whole = Pending sealer d₀ (hydrate sealer d₀)

  abbrev Folded : Disk → Type 0
  Folded = Installed sealer d₀ (hydrate sealer d₀)

  finish-Recovers :
      (n : ℕ)
      → Runs
          (OnDisk Folded)
          (finish system n)
          (λ _ s. OnDisk Recovered s)
          (λ _ s. OnDisk Recovered s)
  unfolding finish
  finish-Recovers n =
      Runs-bind
        (call-Runs system truncate_delta (Emptied-Recovers sealer d₀)
          (Installed-Recovers sealer d₀))
        λ _.
          Runs-bind (call-Runs system (λ d. d) (λ d h. h) (λ d h. h))
            λ _. Runs-modify _ λ s h. record { held = h.held }

  untouched : (s : Store) → OnDisk (Untouched sealer d₀) s → OnDisk Recovered s
  untouched s h = record { held = Untouched-Recovers sealer d₀ s.disk h.held }

  idle :
      Runs (OnDisk Whole) (call system (λ d. d)) (λ _ s. OnDisk Whole s) (λ _ s. OnDisk Recovered s)
  idle = call-Runs system (λ d. d) (λ d h. h) λ d h. Untouched-Recovers sealer d₀ d h.untouched

  install-Recovers :
      Runs
        (OnDisk (Pending sealer d₀ []))
        (install sealer system (hydrate sealer d₀))
        (λ _ s. OnDisk Recovered s)
        (λ _ s. OnDisk Recovered s)
  unfolding install
  install-Recovers =
      Runs-bind
        (Runs-error untouched
          (write_entries-Pending (hydrate sealer d₀) [] 0 (hydrate-Fits sealer d₀ sound)))
        λ n. Runs-bind idle λ _. Runs-bind idle λ _.
          Runs-bind
            (call-Runs system rename_pending
              (λ d h. record { base = h.pending; delta = h.untouched.delta })
              (λ d h. Untouched-Recovers sealer d₀ d h.untouched))
            λ _. finish-Recovers n

  cleared :
      Runs
        (OnDisk Recovered)
        (call system open_pending)
        (λ _ s. OnDisk Recovered s)
        (λ _ s. OnDisk Recovered s)
  unfolding hydrate
  cleared = call-Runs system open_pending (λ d k id. k id) λ d k. k

  swept :
      (r : Result Error (Unit {0}) × Store)
      → OnDisk Recovered r.1
      → OnDisk Recovered (remove_pending system r).1
  unfolding remove_pending
  swept (r, s) h = Runs-state cleared s h

  compact-Recovers :
      Runs
        (OnDisk (Untouched sealer d₀))
        (compact sealer system (hydrate sealer d₀))
        (λ _ s. OnDisk Recovered s)
        (λ _ s. OnDisk Recovered s)
  unfolding compact
  compact-Recovers =
      Runs-bind
        (call-Runs system open_pending
          (λ d h. record {
            untouched = record { base = h.base; delta = h.delta };
            pending = no_entry;
          })
          (Untouched-Recovers sealer d₀))
        λ _. Runs-step λ s h.
          swept (install sealer system (hydrate sealer d₀) s) (Runs-state install-Recovers s h)

-- Folding the delta into the base changes what the index recovers of no record, whatever is in the
-- two files, and whichever call of the sealer or of the operating system fails, in the middle of a
-- write too: with a sealer that opens what it sealed, hydration finds the same entry of every record
-- as before, and no record has two.
pub compact_index-Recovers :
    (sealer : Sealer) (system : System) (s : Store)
    → IsSound sealer
    → Recovers sealer (hydrate sealer s.disk) (compact_index sealer system s).1.disk
      × IsDistinct (hydrate sealer (compact_index sealer system s).1.disk)
unfolding compact_index hydrate
compact_index-Recovers sealer system s sound = (
  (Runs-state (compact-Recovers sealer system s.disk sound) s
      (record { held = record { base = refl; delta = refl } })).held,
  folded-IsDistinct _ _,
)
