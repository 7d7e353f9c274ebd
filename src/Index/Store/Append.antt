-- ===== src/Index/Store/Append.antt =====
-- Appending to the delta, with a failure at any of its calls.
use mnemosia.Prelude.{
  ℕ, zero, suc, ◌≤◌, ◌≡◌, refl, sym, ap, ◌∙◌, subst, List, [], ◌∷◌, ◌++◌, append-nil, append_assoc,
  length, take, All, arith,
}
use native.Mathlib.Decide.{dec_lt}
use mnemosia.Prelude.Exec.{
  Post, Runs, Runs-bind, Runs-given, Runs-modify, Runs-pure, Runs-error, Runs-post, Runs-fail,
}
use mnemosia.Index.Entry.{Entry, Sealer, read_entries}
use mnemosia.Index.Entry.RoundTrip.{Fits, IsSound, IsLine}
use mnemosia.Index.Entry.Torn.{
  Holds, no_entry, one_more, Holds-append, read_entries-Holds, read_entries_whole, next_entry-torn,
}
use mnemosia.Index.Store.{Disk, Store, System, hydrate, to_delta, append_entries, append}
use mnemosia.Index.Store.Book.{folded}
use mnemosia.Index.Store.Rules.{OnDisk, call-Runs, write-Runs, encode-Runs}

take_all : {A : Type 0} (n : ℕ) (xs : List A) → length xs ≤ n → take n xs ≡ xs
take_all zero [] h = refl
take_all zero (x ∷ xs) h = absurd (omega arith)
take_all (suc n) [] h = refl
take_all (suc n) (x ∷ xs) h = ap (◌∷◌ x) (take_all n xs (omega arith))

module _ (sealer : Sealer) where
  -- The base is as it was, and the delta is the lines of these entries.
  record Written (base : List ℕ) (done : List Entry) (d : Disk) : Type 0 where
    base_kept : d.base ≡ base
    holds : Holds sealer done d.delta

  -- The base is as it was, and what reads of the delta is these entries and the first of those.
  record Stopped (base : List ℕ) (done es : List Entry) (d : Disk) : Type 0 where
    base_kept : d.base ≡ base
    k : ℕ
    some_of : k ≤ length es
    reads : read_entries sealer d.delta ≡ done ++ take k es

  Written-Stopped :
      (base : List ℕ) (done es : List Entry) (d : Disk)
      → Written base (done ++ es) d
      → Stopped base done es d
  Written-Stopped base done es d h = record {
    base_kept = h.base_kept;
    k = length es;
    some_of = omega arith;
    reads =
        read_entries_whole sealer (done ++ es) d.delta h.holds
        ∙ ap (λ t. done ++ t) (sym (take_all (length es) es (omega arith)));
  }

  nothing_more :
      (base : List ℕ) (done es : List Entry) (d : Disk)
      → Written base done d
      → Stopped base done es d
  nothing_more base done es d h = record {
    base_kept = h.base_kept;
    k = 0;
    some_of = omega arith;
    reads = read_entries_whole sealer done d.delta h.holds ∙ sym (append-nil done);
  }

  one_line :
      (base : List ℕ) (done : List Entry) (e : Entry) (line : List ℕ)
      → IsLine sealer e line
      → (d : Disk) → Written base done d
      → Written base (done ++ e ∷ []) (to_delta line d)
  one_line base done e line is d h = record {
    base_kept = h.base_kept;
    holds =
        subst (λ bytes. Holds sealer (done ++ e ∷ []) (d.delta ++ bytes)) (append-nil line)
          (Holds-append sealer h.holds (one_more e [] line [] is no_entry));
  }

  -- Of a line that was cut nothing reads; one that was written whole is the entry.
  cut_line :
      (base : List ℕ) (done es : List Entry) (e : Entry) (line : List ℕ)
      → IsLine sealer e line
      → (d : Disk) (n : ℕ) → Written base done d
      → Stopped base done (e ∷ es) (to_delta (take n line) d)
  cut_line base done es e line is d n h = elim (dec_lt n (length line)) [
    | yes cut ↦ record {
      base_kept = h.base_kept;
      k = 0;
      some_of = omega arith;
      reads =
          read_entries-Holds sealer done d.delta (take n line) h.holds
            (next_entry-torn sealer e line n is cut)
          ∙ sym (append-nil done);
    }
    | no whole ↦ record {
      base_kept = h.base_kept;
      k = 1;
      some_of = omega arith;
      reads =
          ap (λ l. read_entries sealer (d.delta ++ l)) (take_all n line (omega arith))
          ∙ read_entries_whole sealer (done ++ e ∷ []) (d.delta ++ line)
              (one_line base done e line is d h).holds;
    }
  ]

  later :
      (base : List ℕ) (done es : List Entry) (e : Entry) (s : Store)
      → OnDisk (Stopped base (done ++ e ∷ []) es) s
      → OnDisk (Stopped base done (e ∷ es)) s
  later base done es e s h = record {
    held = record {
      base_kept = h.held.base_kept;
      k = suc h.held.k;
      some_of = omega (arith, h.held.some_of);
      reads = h.held.reads ∙ append_assoc done (e ∷ []) (take h.held.k es);
    };
  }

module _ (sealer : Sealer) (system : System) (sound : IsSound sealer) (base : List ℕ) where
  append_entries-Written :
      (es done : List Entry)
      → All Fits es
      → Runs
          (OnDisk (Written sealer base done))
          (append_entries sealer system es)
          (λ _ s. OnDisk (Written sealer base (done ++ es)) s)
          (λ _ s. OnDisk (Stopped sealer base done es) s)
  unfolding append_entries
  append_entries-Written [] done fits =
      Runs-pure tt λ s h. subst (λ es. OnDisk (Written sealer base es) s) (sym (append-nil done)) h
  append_entries-Written (e ∷ es) done fits =
      Runs-bind
        (Runs-error (λ s h. record { held = nothing_more sealer base done (e ∷ es) s.disk h.held })
          (encode-Runs sealer sound e fits.0))
        λ line. Runs-given λ is.
          Runs-bind
            (write-Runs {Q = Written sealer base (done ++ e ∷ [])} system to_delta line
              (one_line sealer base done e line is) (cut_line sealer base done es e line is))
            λ _.
              Runs-bind
                (Runs-modify {Q = OnDisk (Written sealer base (done ++ e ∷ []))} _
                  λ s h. record { held = h.held })
                λ _.
                  subst
                    (λ all.
                      Runs (OnDisk (Written sealer base (done ++ e ∷ [])))
                        (append_entries sealer system es)
                        (λ _ s. OnDisk (Written sealer base all) s)
                        (λ _ s. OnDisk (Stopped sealer base done (e ∷ es)) s))
                    (append_assoc done (e ∷ []) es)
                    (Runs-error (later sealer base done es e)
                      (append_entries-Written es (done ++ e ∷ []) fits.1))

  append-Written :
      (es done : List Entry)
      → All Fits es
      → Runs
          (OnDisk (Written sealer base done))
          (append sealer system es)
          (λ _ s. OnDisk (Written sealer base (done ++ es)) s)
          (λ _ s. OnDisk (Stopped sealer base done es) s)
  unfolding append
  append-Written [] done fits =
      Runs-pure tt λ s h. subst (λ es. OnDisk (Written sealer base es) s) (sym (append-nil done)) h
  append-Written (e ∷ es) done fits =
      Runs-bind (append_entries-Written (e ∷ es) done fits)
        λ _. call-Runs system (λ d. d) (λ d h. h) (Written-Stopped sealer base done (e ∷ es))

module _ (sealer : Sealer) where
  -- From a base and these entries in the delta, hydration gives what they fold to.
  Written-hydrate :
      (base : List ℕ) (es : List Entry) (d : Disk)
      → Written sealer base es d
      → hydrate sealer d ≡ folded (read_entries sealer base) es
  unfolding hydrate
  Written-hydrate base es d h =
      ap (λ b. folded (read_entries sealer b) (read_entries sealer d.delta)) h.base_kept
      ∙ ap (folded (read_entries sealer base)) (read_entries_whole sealer es d.delta h.holds)

  Stopped-hydrate :
      (base : List ℕ) (done es : List Entry) (d : Disk) (h : Stopped sealer base done es d)
      → hydrate sealer d ≡ folded (read_entries sealer base) (done ++ take h.k es)
  unfolding hydrate
  Stopped-hydrate base done es d h =
      ap (λ b. folded (read_entries sealer b) (read_entries sealer d.delta)) h.base_kept
      ∙ ap (folded (read_entries sealer base)) h.reads

-- After an append that returns, hydration gives what the base, the entries that were in the delta
-- and all the new ones fold to. After one that fails at some call, in the middle of a line too, it
-- gives what they fold to with only the first of the new ones: no entry from before is lost, and
-- none is read from a line that was cut. The new entries fit the layout, the delta was whole, and
-- the sealer opens what it sealed.
pub append-Prefix :
    (sealer : Sealer) (system : System) (s : Store) (done es : List Entry)
    → IsSound sealer
    → All Fits es
    → Holds sealer done s.disk.delta
    → Post
        (λ _ after.
          hydrate sealer after.disk ≡ folded (read_entries sealer s.disk.base) (done ++ es))
        (λ _ after.
          (k : ℕ) × (k ≤ length es)
          × (hydrate sealer after.disk
              ≡ folded (read_entries sealer s.disk.base) (done ++ take k es)))
        (append sealer system es s)
append-Prefix sealer system s done es sound fits holds =
    (Runs-post (λ _ after h. Written-hydrate sealer s.disk.base (done ++ es) after.disk h.held)
        (Runs-fail
          (λ e after h. (
            h.held.k,
            h.held.some_of,
            Stopped-hydrate sealer s.disk.base done es after.disk h.held,
          ))
          (append-Written sealer system sound s.disk.base es done fits))).at
      s (record { held = record { base_kept = refl; holds = holds } })
