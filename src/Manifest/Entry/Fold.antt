-- ===== src/Manifest/Entry/Fold.antt =====
-- A book made again from its own entries, as a snapshot does.
use mnemosia.Prelude.{
  ℕ, ◌≡◌, refl, sym, ◌∙◌, ap, subst, true, false, List, [], ◌∷◌, ◌++◌, append-nil, append_assoc,
  none, some, nat_eq_iff, number_keys, ==_refl, contains, include, contains-snoc, map_get, arith,
  if◌then◌else◌,
}
use mnemosia.Manifest.Entry.{Entry, Book, empty_book, seen, put_entry, entry_at, all_entries}
use mnemosia.Manifest.Entry.Merge.{
  put_entries, latest, over, ids_of, include_ids, Distinct, Proper, Same, empty_book-Proper,
  map_get-put_entries, put_entries-order, over_again, include_ids_again,
}

-- An id that the book has, and what is kept for it.
entry_at-seen : (b : Book) (k : ℕ) → seen b k ≡ true → map_get b.entries k ≡ some (entry_at b k)
unfolding seen entry_at
entry_at-seen b k h = ground arith

pub entry_at_listed :
    (b : Book) (k : ℕ)
    → Proper b
    → contains b.order k ≡ true
    → map_get b.entries k ≡ some (entry_at b k)
entry_at_listed b k p h = entry_at-seen b k (sym (p.listed k) ∙ h)

id_of-entry_at : (b : Book) (k : ℕ) → Proper b → contains b.order k ≡ true → (entry_at b k).id ≡ k
id_of-entry_at b k p h = p.keyed k (entry_at b k) (entry_at-seen b k (sym (p.listed k) ∙ h))

abbrev pub Within : Book → List ℕ → Type 0
Within b ids = (k : ℕ) → contains ids k ≡ true → contains b.order k ≡ true

pub Within-rest : (b : Book) (id : ℕ) (rest : List ℕ) → Within b (id ∷ rest) → Within b rest
unfolding contains
Within-rest b id rest w k h = w k (ground arith)

pub Within-head :
    (b : Book) (id : ℕ) (rest : List ℕ) → Within b (id ∷ rest) → contains b.order id ≡ true
unfolding contains
Within-head b id rest w = w id (ground (arith, ==_refl id))

ids_of-all_entries :
    (b : Book) (ids : List ℕ) → Proper b → Within b ids → ids_of (all_entries b ids) ≡ ids
unfolding all_entries ids_of
ids_of-all_entries b [] p w = refl
ids_of-all_entries b (id ∷ rest) p w =
    ap (◌∷◌ (entry_at b id).id) (ids_of-all_entries b rest p (Within-rest b id rest w))
    ∙ ap (λ i. i ∷ rest) (id_of-entry_at b id p (Within-head b id rest w))

latest-all_entries :
    (b : Book) (ids : List ℕ) (k : ℕ)
    → Proper b
    → Within b ids
    → latest (all_entries b ids) k ≡ (if contains ids k then map_get b.entries k else none)
unfolding all_entries latest contains
latest-all_entries b [] k p w = refl
latest-all_entries b (id ∷ rest) k p w = ground (
  arith,
  latest-all_entries b rest k p (Within-rest b id rest w),
  nat_eq_iff id k,
  nat_eq_iff (entry_at b id).id k,
  id_of-entry_at b id p (Within-head b id rest w),
  entry_at-seen b id (sym (p.listed id) ∙ Within-head b id rest w),
)

include_new : (x : ℕ) (xs : List ℕ) → contains xs x ≡ false → include x xs ≡ xs ++ x ∷ []
unfolding include
include_new x xs h = ground arith

-- Ids that are distinct are added at the end as they stand.
include_ids-Distinct :
    (es : List Entry) (order : List ℕ)
    → Distinct (ids_of es)
    → ((k : ℕ) → contains (ids_of es) k ≡ true → contains order k ≡ false)
    → include_ids es order ≡ order ++ ids_of es
unfolding include_ids ids_of Distinct include contains
include_ids-Distinct [] order d h = sym (append-nil order)
include_ids-Distinct (e ∷ es) order d h =
    ap (include_ids es) (include_new e.id order (h e.id (ground (arith, ==_refl e.id))))
    ∙ include_ids-Distinct es (order ++ e.id ∷ []) d.1 (λ k i.
      ground (arith, contains-snoc order e.id k, nat_eq_iff e.id k, h k (ground arith), d.0, i))
    ∙ append_assoc order (e.id ∷ []) (ids_of es)

Within-own : (b : Book) → Within b b.order
Within-own b k h = h

nowhere : (k : ℕ) → contains [] k ≡ false
unfolding contains
nowhere k = refl

over_listed :
    (b : Book) (k : ℕ)
    → Proper b
    → over (if contains b.order k then map_get b.entries k else none) none ≡ map_get b.entries k
unfolding over seen
over_listed b k p = ground (arith, p.listed k)

-- A book is made again, map and order, by its own entries in order.
pub put_entries-all_entries :
    (b : Book) → Proper b → Same (put_entries (all_entries b b.order) empty_book) b
unfolding map_get
put_entries-all_entries b p = record {
  order =
      put_entries-order (all_entries b b.order) empty_book empty_book-Proper
      ∙ include_ids-Distinct (all_entries b b.order) [] (subst Distinct (sym ids) p.distinct)
          (λ k h. nowhere k)
      ∙ ids;
  entries = λ k.
      map_get-put_entries (all_entries b b.order) empty_book k
      ∙ ap (λ o. over o none) (latest-all_entries b b.order k p (Within-own b))
      ∙ over_listed b k p;
}
  where
    ids : ids_of (all_entries b b.order) ≡ b.order
    ids = ids_of-all_entries b b.order p (Within-own b)

-- To put entries in again over what they made, in a book of any history, changes nothing.
pub put_entries_again :
    (es : List Entry) (b c : Book)
    → Proper b
    → Proper c
    → Same c (put_entries es b)
    → Same (put_entries es c) c
put_entries_again es b c p q s = record {
  order =
      put_entries-order es c q
      ∙ ap (include_ids es) (s.order ∙ put_entries-order es b p)
      ∙ include_ids_again es b.order
      ∙ sym (s.order ∙ put_entries-order es b p);
  entries = λ k.
      map_get-put_entries es c k
      ∙ ap (over (latest es k)) (s.entries k ∙ map_get-put_entries es b k)
      ∙ over_again (latest es k) (map_get b.entries k)
      ∙ sym (s.entries k ∙ map_get-put_entries es b k);
}

pub put_entries-append :
    (es fs : List Entry) (b : Book) → put_entries (es ++ fs) b ≡ put_entries fs (put_entries es b)
unfolding put_entries
put_entries-append [] fs b = refl
put_entries-append (e ∷ es) fs b = put_entries-append es fs (put_entry e b)

-- The same books stay the same when the same is put into them.
pub Same-put_entries :
    (es : List Entry) (b c : Book)
    → Proper b
    → Proper c
    → Same b c
    → Same (put_entries es b) (put_entries es c)
Same-put_entries es b c p q s = record {
  order = put_entries-order es b p ∙ ap (include_ids es) s.order ∙ sym (put_entries-order es c q);
  entries = λ k.
      map_get-put_entries es b k
      ∙ ap (over (latest es k)) (s.entries k)
      ∙ sym (map_get-put_entries es c k);
}

pub Same-refl : (b : Book) → Same b b
Same-refl b = record { order = refl; entries = λ k. refl }

pub Same-trans : (a b c : Book) → Same a b → Same b c → Same a c
Same-trans a b c s t = record {
  order = s.order ∙ t.order;
  entries = λ k. s.entries k ∙ t.entries k;
}

pub Same-sym : (b c : Book) → Same b c → Same c b
Same-sym b c s = record { order = sym s.order; entries = λ k. sym (s.entries k) }
