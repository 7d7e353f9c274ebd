-- ===== src/Manifest/Entry/Count.antt =====
-- The entries that a book lists and the number that it reports.
use mnemosia.Prelude.{
  ℕ, ◌≡◌, refl, sym, ◌∙◌, ap, subst, true, false, List, [], ◌∷◌, ◌++◌, none, some, nat_eq_iff,
  number_keys, ==_refl, contains, map_get, map_put, length, arith, if◌then◌else◌,
}
use mnemosia.Manifest.Entry.{Entry, Book, seen, put_entry, entry_at, live_entries, count_live}
use mnemosia.Manifest.Entry.Merge.{put_entries, Distinct, Proper, put_entry-Proper}

unfoldable pub keys : List (ℕ × Entry) → List ℕ
keys [] = []
keys ((id, e) ∷ rest) = id ∷ keys rest

contains-keys :
    (m : List (ℕ × Entry)) (id : ℕ)
    → contains (keys m) id ≡ (elim (map_get m id) [ none ↦ false | some e ↦ true ])
unfolding keys contains map_get
contains-keys [] id = refl
contains-keys ((j, e) ∷ m) id = ground (arith, contains-keys m id)

keys-map_put :
    (m : List (ℕ × Entry)) (id : ℕ) (e : Entry)
    → keys (map_put m id e) ≡ (if contains (keys m) id then keys m else keys m ++ id ∷ [])
unfolding keys contains map_put
keys-map_put [] id e = refl
keys-map_put ((j, f) ∷ m) id e = ground (arith, keys-map_put m id e, nat_eq_iff j id)

-- The order is that of the map's own keys.
pub record Ordered (b : Book) : Type 0 where
  pub proper : Proper b
  pub order : b.order ≡ keys b.entries

pub put_entry-Ordered : (e : Entry) (b : Book) → Ordered b → Ordered (put_entry e b)
unfolding put_entry seen
put_entry-Ordered e b o = record {
  proper = put_entry-Proper e b o.proper;
  order = ground (arith, o.order, keys-map_put b.entries e.id e, contains-keys b.entries e.id);
}

pub put_entries-Ordered : (es : List Entry) (b : Book) → Ordered b → Ordered (put_entries es b)
unfolding put_entries
put_entries-Ordered [] b o = o
put_entries-Ordered (e ∷ es) b o = put_entries-Ordered es (put_entry e b) (put_entry-Ordered e b o)

-- The pairs are all in the book's map.
Found : Book → List (ℕ × Entry) → Type 0
Found b [] = Unit
Found b ((id, e) ∷ rest) = (map_get b.entries id ≡ some e) × Found b rest

length-live_entries :
    (b : Book) (m : List (ℕ × Entry)) → Found b m → length (live_entries b (keys m)) ≡ count_live m
unfolding Found keys live_entries count_live entry_at
length-live_entries b [] f = refl
length-live_entries b ((id, e) ∷ m) (here, f) = ground (arith, length-live_entries b m f, here)

FoundIn : List (ℕ × Entry) → List (ℕ × Entry) → Type 0
FoundIn whole [] = Unit
FoundIn whole ((id, e) ∷ rest) = (map_get whole id ≡ some e) × FoundIn whole rest

FoundIn-cons :
    (j : ℕ) (x : Entry) (m rest : List (ℕ × Entry))
    → contains (keys rest) j ≡ false
    → FoundIn m rest
    → FoundIn ((j, x) ∷ m) rest
unfolding FoundIn keys contains map_get
FoundIn-cons j x m [] d f = tt
FoundIn-cons j x m ((id, e) ∷ rest) d f = (
  ground (arith, nat_eq_iff j id, nat_eq_iff id j, f.0, d),
  FoundIn-cons j x m rest (ground (arith, d)) f.1,
)

Distinct-FoundIn : (m : List (ℕ × Entry)) → Distinct (keys m) → FoundIn m m
unfolding FoundIn keys Distinct map_get
Distinct-FoundIn [] d = tt
Distinct-FoundIn ((id, e) ∷ m) d =
    (ground (arith, ==_refl id), FoundIn-cons id e m m d.0 (Distinct-FoundIn m d.1))

FoundIn-Found : (b : Book) (m : List (ℕ × Entry)) → FoundIn b.entries m → Found b m
unfolding FoundIn Found
FoundIn-Found b [] f = tt
FoundIn-Found b ((id, e) ∷ m) f = (f.0, FoundIn-Found b m f.1)

pub Ordered-count : (b : Book) → Ordered b → count_live b.entries ≡ length (live_entries b b.order)
Ordered-count b o =
    sym (
      length-live_entries b b.entries (
        FoundIn-Found b b.entries
          (Distinct-FoundIn b.entries (subst Distinct o.order o.proper.distinct))))
    ∙ ap (λ ids. length (live_entries b ids)) (sym o.order)
