-- ===== src/Vault/Session/Load/Fill.antt =====
-- A page of a list of messages, filled one message after another.
use mnemosia.Prelude.{
  ℕ, zero, suc, ◌+◌, ◌<◌, ◌≡◌, refl, sym, ap, nat_eq, true, List, [], ◌∷◌, ◌++◌, append-nil,
  append_assoc, Option, none, some, String, string_keys, ◌==◌, length, length-append, take, drop,
  arith, if◌then◌else◌,
}
use mnemosia.Record.Message.{Message}
use mnemosia.Vault.Session.Load.{Page, is_full}

-- From the first message of this id on; from the start where the id is empty.
unfoldable pub search_from : String → List Message → Option (List Message)
search_from from [] = none
search_from from (m ∷ ms) =
    let later = search_from from ms in if m.id == from then some (m ∷ ms) else later

unfoldable pub suffix : String → List Message → Option (List Message)
suffix from ms = if from == "" then some ms else search_from from ms

-- The id of the message at the head.
unfoldable pub next_id : List Message → Option String
next_id [] = none
next_id (m ∷ ms) = some m.id

-- So many messages, 0 for all of them.
unfoldable pub page : ℕ → List Message → Page
page limit ms = if nat_eq limit 0 then (ms, none) else (take limit ms, next_id (drop limit ms))

-- One message after another onto a page.
unfoldable pub fill : ℕ → List Message → List Message → Page
fill limit out [] = (out, none)
fill limit out (m ∷ ms) =
    let later = fill limit (out ++ m ∷ []) ms in
    if is_full limit out then (out, some m.id) else later

pub fill_full :
    (limit : ℕ) (out ms : List Message)
    → is_full limit out ≡ true
    → fill limit out ms ≡ (out, next_id ms)
unfolding fill next_id
fill_full limit out [] h = refl
fill_full limit out (m ∷ ms) h = ground (arith, h)

length-snoc : (out : List Message) (m : Message) → length (out ++ m ∷ []) ≡ suc (length out)
length-snoc out m = omega (arith, length-append out (m ∷ []))

fill_all : (out ms : List Message) → fill 0 out ms ≡ (out ++ ms, none)
unfolding fill is_full
fill_all out [] = ap (λ l. (l, none)) (sym (append-nil out))
fill_all out (m ∷ ms) = ground (arith, fill_all (out ++ m ∷ []) ms, append_assoc out (m ∷ []) ms)

fill_some :
    (room limit : ℕ) (out ms : List Message)
    → length out + room ≡ limit
    → 0 < limit
    → fill limit out ms ≡ (out ++ take room ms, next_id (drop room ms))
unfolding fill is_full next_id
fill_some zero limit out [] e h = ap (λ l. (l, none)) (sym (append-nil out))
fill_some zero limit out (m ∷ ms) e h = ground (arith, e, h, append-nil out)
fill_some (suc room) limit out [] e h = ap (λ l. (l, none)) (sym (append-nil out))
fill_some (suc room) limit out (m ∷ ms) e h = ground (
  arith,
  e,
  h,
  fill_some room limit (out ++ m ∷ []) ms (omega (arith, e, length-snoc out m)) h,
  append_assoc out (m ∷ []) (take room ms),
)

pub fill-page : (limit : ℕ) (ms : List Message) → fill limit [] ms ≡ page limit ms
unfolding page
fill-page zero ms = fill_all [] ms
fill-page (suc n) ms = ground (arith, fill_some (suc n) (suc n) [] ms (omega arith) (omega arith))
