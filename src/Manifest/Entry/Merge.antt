-- ===== src/Manifest/Entry/Merge.antt =====
-- Entries put into a book one after another, and what a second round of them changes.
use mnemosia.Prelude.{
  ℕ, ◌≡◌, refl, sym, ◌∙◌, ap, subst, true, false, List, [], ◌∷◌, ◌++◌, Option, none, some,
  nat_eq_iff, number_keys, ◌==◌, ==_refl, contains, include, contains-include, contains-snoc,
  map_get, map_get-map_put, arith, if◌then◌else◌, inl, inr, Bool-cases,
}
use mnemosia.Manifest.Entry.{Entry, Book, empty_book, seen, put_entry}

unfoldable pub put_entries : List Entry → Book → Book
put_entries [] b = b
put_entries (e ∷ es) b = put_entries es (put_entry e b)

-- The last of the entries for a record.
unfoldable pub latest : List Entry → ℕ → Option Entry
latest [] k = none
latest (e ∷ es) k = elim (latest es k) [
  | none ↦ if e.id == k then some e else none
  | some later ↦ some later
]

unfoldable pub over : Option Entry → Option Entry → Option Entry
over none old = old
over (some e) old = some e

unfoldable pub ids_of : List Entry → List ℕ
ids_of [] = []
ids_of (e ∷ es) = e.id ∷ ids_of es

-- Each of the ids, after those that are there.
unfoldable pub include_ids : List Entry → List ℕ → List ℕ
include_ids [] order = order
include_ids (e ∷ es) order = include_ids es (include e.id order)

unfoldable pub Distinct : List ℕ → Type 0
Distinct [] = Unit
Distinct (x ∷ xs) = (contains xs x ≡ false) × Distinct xs

-- What every book that the program makes satisfies: its order lists the records of its map once.
pub record Proper (b : Book) : Type 0 where
  pub listed : (k : ℕ) → contains b.order k ≡ seen b k
  pub keyed : (k : ℕ) (e : Entry) → map_get b.entries k ≡ some e → e.id ≡ k
  pub distinct : Distinct b.order

-- The same map and the same order.
pub record Same (b c : Book) : Type 0 where
  pub order : b.order ≡ c.order
  pub entries : (k : ℕ) → map_get b.entries k ≡ map_get c.entries k

pub empty_book-Proper : Proper empty_book
unfolding contains seen map_get Distinct
empty_book-Proper = record { listed = λ k. refl; keyed = λ k e h. ground arith; distinct = tt }

Distinct-snoc :
    (xs : List ℕ) (x : ℕ) → Distinct xs → contains xs x ≡ false → Distinct (xs ++ x ∷ [])
unfolding Distinct contains
Distinct-snoc [] x d h = (refl, tt)
Distinct-snoc (y ∷ xs) x d h = (
  ground (arith, contains-snoc xs x y, nat_eq_iff x y, nat_eq_iff y x),
  Distinct-snoc xs x d.1 (ground arith),
)

keyed-put_entry :
    (e f : Entry) (k : ℕ) (old : Option Entry)
    → ((f : Entry) → old ≡ some f → f.id ≡ k)
    → (if e.id == k then some e else old) ≡ some f
    → f.id ≡ k
keyed-put_entry e f k old h p = ground (arith, nat_eq_iff e.id k, h f)

include-Distinct : (x : ℕ) (xs : List ℕ) → Distinct xs → Distinct (include x xs)
unfolding include
include-Distinct x xs d = elim (Bool-cases (contains xs x)) [
  | inl h ↦ subst (λ b. Distinct (if b then xs else xs ++ x ∷ [])) (sym h) d
  | inr h ↦ subst (λ b. Distinct (if b then xs else xs ++ x ∷ [])) (sym h) (Distinct-snoc xs x d h)
]

put_entry-order : (e : Entry) (b : Book) → Proper b → (put_entry e b).order ≡ include e.id b.order
unfolding put_entry include
put_entry-order e b p = ground (arith, p.listed e.id)

pub put_entry-Proper : (e : Entry) (b : Book) → Proper b → Proper (put_entry e b)
unfolding put_entry seen
put_entry-Proper e b p = record {
  listed = λ k. ground (
    arith,
    map_get-map_put b.entries e.id e k,
    contains-snoc b.order e.id k,
    nat_eq_iff e.id k,
    p.listed k,
    p.listed e.id,
  );
  keyed = λ k f h.
      keyed-put_entry e f k (map_get b.entries k) (p.keyed k)
        (sym (map_get-map_put b.entries e.id e k) ∙ h);
  distinct =
      subst Distinct (sym (put_entry-order e b p)) (include-Distinct e.id b.order p.distinct);
}

pub put_entries-Proper : (es : List Entry) (b : Book) → Proper b → Proper (put_entries es b)
unfolding put_entries
put_entries-Proper [] b p = p
put_entries-Proper (e ∷ es) b p = put_entries-Proper es (put_entry e b) (put_entry-Proper e b p)

pub map_get-put_entries :
    (es : List Entry) (b : Book) (k : ℕ)
    → map_get (put_entries es b).entries k ≡ over (latest es k) (map_get b.entries k)
unfolding put_entries latest over put_entry
map_get-put_entries [] b k = refl
map_get-put_entries (e ∷ es) b k =
    ground (arith, map_get-put_entries es (put_entry e b) k, map_get-map_put b.entries e.id e k)

pub put_entries-order :
    (es : List Entry) (b : Book) → Proper b → (put_entries es b).order ≡ include_ids es b.order
unfolding put_entries include_ids
put_entries-order [] b p = refl
put_entries-order (e ∷ es) b p =
    put_entries-order es (put_entry e b) (put_entry-Proper e b p)
    ∙ ap (include_ids es) (put_entry-order e b p)

-- What is put in stays in, and what it is put over does not matter.
pub contains-include_ids :
    (es : List Entry) (order : List ℕ) (k : ℕ)
    → contains order k ≡ true
    → contains (include_ids es order) k ≡ true
unfolding include_ids
contains-include_ids [] order k h = h
contains-include_ids (e ∷ es) order k h =
    contains-include_ids es (include e.id order) k (ground (arith, contains-include e.id k order))

include_present : (x : ℕ) (xs : List ℕ) → contains xs x ≡ true → include x xs ≡ xs
unfolding include
include_present x xs h = ground arith

-- Ids that are all there add nothing.
include_ids_present :
    (es : List Entry) (order : List ℕ)
    → ((k : ℕ) → contains (ids_of es) k ≡ true → contains order k ≡ true)
    → include_ids es order ≡ order
unfolding include_ids contains ids_of
include_ids_present [] order h = refl
include_ids_present (e ∷ es) order h =
    ap (include_ids es) (include_present e.id order (h e.id (ground (arith, ==_refl e.id))))
    ∙ include_ids_present es order (λ k i. h k (ground arith))

contains-ids-include_ids :
    (es : List Entry) (order : List ℕ) (k : ℕ)
    → contains (ids_of es) k ≡ true
    → contains (include_ids es order) k ≡ true
unfolding include_ids contains ids_of
contains-ids-include_ids [] order k h = ground arith
contains-ids-include_ids (e ∷ es) order k h = ground (
  arith,
  nat_eq_iff e.id k,
  contains-include e.id k order,
  contains-ids-include_ids es (include e.id order) k,
  contains-include_ids es (include e.id order) k,
)

pub include_ids_again :
    (es : List Entry) (order : List ℕ)
    → include_ids es (include_ids es order) ≡ include_ids es order
include_ids_again es order =
    include_ids_present es (include_ids es order) (λ k. contains-ids-include_ids es order k)

pub over_again : (new old : Option Entry) → over new (over new old) ≡ over new old
unfolding over
over_again none old = refl
over_again (some e) old = refl
