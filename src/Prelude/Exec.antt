-- ===== src/Prelude/Exec.antt =====
-- Go methods that change a state and may return an error: what was changed before the error stays
-- changed, so the state comes back beside it. `Runs` is the contract of such a method.
use mathlib.Core.Path.{◌≡◌, refl, sym, subst}
use mathlib.Core.Logic.{◌⊎◌, inl, inr}
use mathlib.Core.Bool.{Bool, true, false}
use mathlib.Core.Option.{Option, none, some}
use mnemosia.Prelude.Tests.{if◌then◌else◌}

pub data Result {ℓ} (E A : Type ℓ) : Type ℓ where
  ok : A → Result E A
  err : E → Result E A

abbrev pub Exec {ℓ} : Type ℓ → Type ℓ → Type ℓ → Type ℓ
Exec S E A = S → Result E A × S

module _ {ℓ} {S E A : Type ℓ} where
  abbrev pub pure : A → Exec S E A
  pure a s = (ok a, s)

  abbrev pub fail : E → Exec S E A
  fail e s = (err e, s)

  abbrev pub lift : Result E A → Exec S E A
  lift r s = (r, s)

  abbrev pub gets : (S → A) → Exec S E A
  gets f s = (ok (f s), s)

module _ {S E : Type 0} where
  abbrev pub modify : (S → S) → Exec S E (Unit {0})
  modify f s = (ok tt, f s)

  -- `if err != nil { return err }`
  abbrev pub check_none : Option E → Exec S E (Unit {0})
  check_none none s = (ok tt, s)
  check_none (some e) s = (err e, s)

module _ {ℓ} {S E A B : Type ℓ} where
  infixl 10 ◌>>=◌ ◌>>◌
  abbrev pub continue : (A → Exec S E B) → Result E A × S → Result E B × S
  continue f (ok a, s) = f a s
  continue f (err e, s) = (err e, s)

  abbrev pub ◌>>=◌ : Exec S E A → (A → Exec S E B) → Exec S E B
  ◌>>=◌ m f s = continue f (m s)

  abbrev pub ◌>>◌ : Exec S E A → Exec S E B → Exec S E B
  m >> n = m >>= λ _. n

abbrev pub Post {ℓ} :
    {S E A : Type ℓ} → (A → S → Type ℓ) → (E → S → Type ℓ) → Result E A × S → Type ℓ
Post Q R (ok a, s) = Q a s
Post Q R (err e, s) = R e s

-- From a state in `P` the method returns `a` with `Q a`, or an error `e` with `R e`.
pub record Runs {ℓ} {S E A : Type ℓ} (P : S → Type ℓ) (m : Exec S E A) (Q : A → S → Type ℓ)
    (R : E → S → Type ℓ) : Type ℓ where
  pub at : (s : S) → P s → Post Q R (m s)

module _ {ℓ} {S E A B : Type ℓ} {Q : A → S → Type ℓ} {Q' : B → S → Type ℓ}
    {R : E → S → Type ℓ} where
  continue-Post :
      (f : A → Exec S E B) (r : Result E A × S)
      → ((a : A) → Runs (Q a) (f a) Q' R)
      → Post Q R r
      → Post Q' R (continue f r)
  continue-Post f (ok a, s) k h = (k a).at s h
  continue-Post f (err e, s) k h = h

module _ {ℓ} {S E A B : Type ℓ} {P : S → Type ℓ} {Q : A → S → Type ℓ} {Q' : B → S → Type ℓ}
    {R : E → S → Type ℓ} where
  pub Runs-bind :
      {m : Exec S E A} {f : A → Exec S E B}
      → Runs P m Q R
      → ((a : A) → Runs (Q a) (f a) Q' R)
      → Runs P (m >>= f) Q' R
  Runs-bind {m} {f} r k = record { at = λ s h. continue-Post f (m s) k (r.at s h) }

-- The method keeps `P`, whether it returns or fails.
pub record Keeps {ℓ} {S E A : Type ℓ} (P : S → Type ℓ) (m : Exec S E A) : Type ℓ where
  pub at : (s : S) → P s → P (m s).1

module _ {ℓ} {S E A B : Type ℓ} {P : S → Type ℓ} where
  continue-Keeps :
      (f : A → Exec S E B) (r : Result E A × S)
      → ((a : A) → r.0 ≡ ok a → Keeps P (f a))
      → P r.1
      → P (continue f r).1
  continue-Keeps f (ok a, s) k h = (k a refl).at s h
  continue-Keeps f (err e, s) k h = h

  pub Keeps-bind :
      (m : Exec S E A) (f : A → Exec S E B)
      → Keeps P m
      → ((a : A) → Keeps P (f a))
      → Keeps P (m >>= f)
  Keeps-bind m f km kf = record { at = λ s h. continue-Keeps f (m s) (λ a _. kf a) (km.at s h) }

  pub Keeps-then : {m : Exec S E A} {n : Exec S E B} → Keeps P m → Keeps P n → Keeps P (m >> n)
  Keeps-then {m} {n} km kn = Keeps-bind m (λ _. n) km (λ _. kn)

module _ {ℓ} {S E A B : Type ℓ} {P : S → Type ℓ} {Q : A → Type ℓ} where
  -- The rest may use what the first part says of its result.
  continue-Keeps-with :
      (f : A → Exec S E B) (r : Result E A × S)
      → Post (λ a s. Q a × P s) (λ _ s. P s) r
      → ((a : A) → Q a → Keeps P (f a))
      → P (continue f r).1
  continue-Keeps-with f (ok a, s) h k = (k a h.0).at s h.1
  continue-Keeps-with f (err e, s) h k = h

  pub Keeps-bind_with :
      (m : Exec S E A) (f : A → Exec S E B)
      → Runs P m (λ a s. Q a × P s) (λ _ s. P s)
      → ((a : A) → Q a → Keeps P (f a))
      → Keeps P (m >>= f)
  Keeps-bind_with m f km kf = record { at = λ s h. continue-Keeps-with f (m s) (km.at s h) kf }

module _ {ℓ} {S E A : Type ℓ} {P : S → Type ℓ} where
  pub Keeps-pure : (a : A) → Keeps P (pure {E = E} a)
  Keeps-pure a = record { at = λ s h. h }

  pub Keeps-fail : (e : E) → Keeps P (fail {A = A} e)
  Keeps-fail e = record { at = λ s h. h }

module _ {S E : Type 0} where
  keeps_at_check : (P : S → Type 0) (o : Option E) (s : S) → P s → P (check_none o s).1
  keeps_at_check P none s h = h
  keeps_at_check P (some e) s h = h

module _ {S E : Type 0} {P : S → Type 0} where
  pub Keeps-check_none : (o : Option E) → Keeps P (check_none o)
  Keeps-check_none o = record { at = keeps_at_check P o }

pub ruleset keeps_rules = (Keeps-bind, Keeps-pure, Keeps-fail, Keeps-check_none)

module _ {ℓ} {S E A : Type ℓ} where
  keeps-Post : (P : S → Type ℓ) (r : Result E A × S) → P r.1 → Post (λ _ s. P s) (λ _ s. P s) r
  keeps-Post P (ok a, s) h = h
  keeps-Post P (err e, s) h = h

  runs_state : (P : S → Type ℓ) (r : Result E A × S) → Post (λ _ s. P s) (λ _ s. P s) r → P r.1
  runs_state P (ok a, s) h = h
  runs_state P (err e, s) h = h

module _ {ℓ} {S E A : Type ℓ} {P : S → Type ℓ} {m : Exec S E A} where
  pub Keeps-Runs : Keeps P m → Runs P m (λ _ s. P s) (λ _ s. P s)
  Keeps-Runs k = record { at = λ s h. keeps-Post P (m s) (k.at s h) }

  pub Runs-Keeps : Runs P m (λ _ s. P s) (λ _ s. P s) → Keeps P m
  Runs-Keeps r = record { at = λ s h. runs_state P (m s) (r.at s h) }

module _ {ℓ} {S E A : Type ℓ} {P P' : S → Type ℓ} {m : Exec S E A} where
  pub Runs-state : Runs P m (λ _ s. P' s) (λ _ s. P' s) → (s : S) → P s → P' (m s).1
  Runs-state r s h = runs_state P' (m s) (r.at s h)

  -- An error leaves the first condition, which is the stronger one.
  pub Keeps-Runs_to : ((s : S) → P s → P' s) → Keeps P m → Runs P m (λ _ s. P s) (λ _ s. P' s)
  Keeps-Runs_to up k = record { at = λ s h. split (m s) (k.at s h) }
    where
      split : (r : Result E A × S) → P r.1 → Post (λ _ s. P s) (λ _ s. P' s) r
      split (ok a, s) h = h
      split (err e, s) h = up s h

  pub Keeps-Runs_both : ((s : S) → P s → P' s) → Keeps P m → Runs P m (λ _ s. P' s) (λ _ s. P' s)
  Keeps-Runs_both up k = record { at = λ s h. keeps-Post P' (m s) (up _ (k.at s h)) }

  -- From one condition to a later one.
  pub Runs-step : ((s : S) → P s → P' (m s).1) → Runs P m (λ _ s. P' s) (λ _ s. P' s)
  Runs-step step = record { at = λ s h. keeps-Post P' (m s) (step s h) }

module _ {ℓ} {S E A : Type ℓ} where
  weaken_error :
      (Q : A → S → Type ℓ) (R R' : S → Type ℓ) (up : (s : S) → R s → R' s) (r : Result E A × S)
      → Post Q (λ _ s. R s) r
      → Post Q (λ _ s. R' s) r
  weaken_error Q R R' up (ok a, s) h = h
  weaken_error Q R R' up (err e, s) h = up s h

module _ {ℓ} {S E A : Type ℓ} {P R R' : S → Type ℓ} {Q : A → S → Type ℓ} {m : Exec S E A} where
  pub Runs-error : ((s : S) → R s → R' s) → Runs P m Q (λ _ s. R s) → Runs P m Q (λ _ s. R' s)
  Runs-error up r = record { at = λ s h. weaken_error Q R R' up (m s) (r.at s h) }

module _ {ℓ} {S E A : Type ℓ} {P : S → Type ℓ} where
  pub Keeps-if :
      (b : Bool) {m n : Exec S E A} → Keeps P m → Keeps P n → Keeps P (if b then m else n)
  Keeps-if true km kn = km
  Keeps-if false km kn = kn

module _ {ℓ} {S E A : Type ℓ} {P : S → Type ℓ} {Q : A → S → Type ℓ} {R : E → S → Type ℓ} where
  pub Runs-pure : (a : A) → ((s : S) → P s → Q a s) → Runs P (pure a) Q R
  Runs-pure a k = record { at = k }

module _ {ℓ} {S E A : Type ℓ} {P : S → Type ℓ} {R : E → S → Type ℓ} where
  pub Runs-gets : (f : S → A) → Runs P (gets f) (λ _ s. P s) R
  Runs-gets f = record { at = λ s h. h }

module _ {ℓ} {S E A B : Type ℓ} {P : S → Type ℓ} {Q : B → S → Type ℓ} {R : E → S → Type ℓ} where
  -- What comes after a result that is known.
  pub Runs-as :
      (f : A → Exec S E B) (b : A)
      → Runs P (f b) Q R
      → (a : A) → Runs (λ s. (a ≡ b) × P s) (f a) Q R
  Runs-as f b r a = record { at = λ s h. (subst (λ x. Runs P (f x) Q R) (sym h.0) r).at s h.1 }

module _ {S E : Type 0} {P Q : S → Type 0} {R : E → S → Type 0} where
  pub Runs-modify : (f : S → S) → ((s : S) → P s → Q (f s)) → Runs P (modify f) (λ _ s. Q s) R
  Runs-modify f step = record { at = step }

pub Result-cases {ℓ} :
    {E A : Type ℓ} (r : Result E A) → ((a : A) × (r ≡ ok a)) ⊎ ((e : E) × (r ≡ err e))
Result-cases (ok a) = inl (a, refl)
Result-cases (err e) = inr (e, refl)

module _ {ℓ} {S E A : Type ℓ} where
  forget_fact :
      (F : A → Type ℓ) (P R : S → Type ℓ) (r : Result E A × S)
      → Post (λ a s. F a × P s) (λ _ s. R s) r
      → Post (λ _ s. P s) (λ _ s. R s) r
  forget_fact F P R (ok a, s) h = h.1
  forget_fact F P R (err e, s) h = h

  -- A fact about the result that is not needed.
  pub Runs-forget :
      {P R : S → Type ℓ} {m : Exec S E A} (F : A → Type ℓ)
      → Runs P m (λ a s. F a × P s) (λ _ s. R s)
      → Runs P m (λ _ s. P s) (λ _ s. R s)
  Runs-forget {P} {R} {m} F r = record { at = λ s h. forget_fact F P R (m s) (r.at s h) }

  -- A fact that the condition brings along.
  pub Runs-given :
      {P : S → Type ℓ} {m : Exec S E A} {Q : A → S → Type ℓ} {R : E → S → Type ℓ} {F : Type ℓ}
      → (F → Runs P m Q R)
      → Runs (λ s. F × P s) m Q R
  Runs-given k = record { at = λ s (f, h). (k f).at s h }

  map_fact :
      (F G : A → Type ℓ) (P R : S → Type ℓ) (r : Result E A × S)
      → ((a : A) → F a → G a)
      → Post (λ a s. F a × P s) (λ _ s. R s) r
      → Post (λ a s. G a × P s) (λ _ s. R s) r
  map_fact F G P R (ok a, s) k (f, h) = (k a f, h)
  map_fact F G P R (err e, s) k h = h

  -- A fact about the result gives another.
  pub Runs-to :
      {P P' R : S → Type ℓ} {m : Exec S E A} {F G : A → Type ℓ}
      → ((a : A) → F a → G a)
      → Runs P m (λ a s. F a × P' s) (λ _ s. R s)
      → Runs P m (λ a s. G a × P' s) (λ _ s. R s)
  Runs-to {P} {P'} {R} {m} {F} {G} k r = record { at = λ s h. map_fact F G P' R (m s) k (r.at s h) }

  pub Runs-if :
      (b : Bool) {P : S → Type ℓ} {m n : Exec S E A} {Q : A → S → Type ℓ} {R : E → S → Type ℓ}
      → Runs P m Q R
      → Runs P n Q R
      → Runs P (if b then m else n) Q R
  Runs-if true r s = r
  Runs-if false r s = s

  weaken_result :
      (Q Q' : A → S → Type ℓ) (R : E → S → Type ℓ) (r : Result E A × S)
      → ((a : A) (s : S) → Q a s → Q' a s)
      → Post Q R r
      → Post Q' R r
  weaken_result Q Q' R (ok a, s) k h = k a s h
  weaken_result Q Q' R (err e, s) k h = h

  pub Runs-post :
      {P : S → Type ℓ} {m : Exec S E A} {Q Q' : A → S → Type ℓ} {R : E → S → Type ℓ}
      → ((a : A) (s : S) → Q a s → Q' a s)
      → Runs P m Q R
      → Runs P m Q' R
  Runs-post {P} {m} {Q} {Q'} {R} k r = record {
    at = λ s h. weaken_result Q Q' R (m s) k (r.at s h);
  }

  weaken_failure :
      (Q : A → S → Type ℓ) (R R' : E → S → Type ℓ) (r : Result E A × S)
      → ((e : E) (s : S) → R e s → R' e s)
      → Post Q R r
      → Post Q R' r
  weaken_failure Q R R' (ok a, s) k h = h
  weaken_failure Q R R' (err e, s) k h = k e s h

  pub Runs-fail :
      {P : S → Type ℓ} {m : Exec S E A} {Q : A → S → Type ℓ} {R R' : E → S → Type ℓ}
      → ((e : E) (s : S) → R e s → R' e s)
      → Runs P m Q R
      → Runs P m Q R'
  Runs-fail {P} {m} {Q} {R} {R'} k r = record {
    at = λ s h. weaken_failure Q R R' (m s) k (r.at s h);
  }

  pub Runs-if_true :
      (b : Bool) {P : S → Type ℓ} {m : Exec S E A} (n : Exec S E A) {Q : A → S → Type ℓ}
      {R : E → S → Type ℓ}
      → b ≡ true
      → Runs P m Q R
      → Runs P (if b then m else n) Q R
  Runs-if_true b {P} {m} n {Q} {R} e r = subst (λ c. Runs P (if c then m else n) Q R) (sym e) r
