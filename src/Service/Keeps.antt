-- ===== src/Service/Keeps.antt =====
-- What calls keep: an invariant of the calls and the tables, one rule for each primitive.
use mnemosia.Prelude.{◌≡◌, refl, ◌∷◌, Option, none, some}
use mnemosia.Prelude.Exec.{Result, ok, err, Exec, Runs, Keeps, Post, keeps_rules}
use mnemosia.Service.{
  Error, Call, Calls, Env, World, Reporting, ask, statement, act, within, put_world, report_as,
  statement_answer,
}

module _ {D A : Type 0} {P : World D → Type 0} where
  pub Keeps-ask :
      (c : Call) (answer : Calls → Result Error A)
      → ((w : World D) → P w → P (record w { calls = c ∷ w.calls }))
      → Keeps P (ask c answer)
  unfolding ask
  Keeps-ask c answer k = record { at = k }

module _ {D : Type 0} where
  statement_answer-at :
      (P : World D → Type 0) (o : Option Error) (f : D → D) (w : World D)
      → P w
      → P (record w { device = f w.device })
      → P (statement_answer o f w).1
  unfolding statement_answer
  statement_answer-at P none f w h k = k
  statement_answer-at P (some e) f w h k = h

module _ {D : Type 0} where
  -- A statement that succeeds.
  pub statement-done :
      (env : Env) (c : Call) (f : D → D) (w : World D)
      → env.on_act w.calls c ≡ none
      → statement env c f w ≡ (ok tt, record { device = f w.device; calls = c ∷ w.calls })
  unfolding statement statement_answer
  statement-done env c f w h = cc h

module _ {D : Type 0} {P : World D → Type 0} where
  pub Keeps-statement :
      (env : Env) (c : Call) (f : D → D)
      → ((w : World D) → P w → P (record w { calls = c ∷ w.calls }))
      → ((w : World D) → P w → P (record { device = f w.device; calls = c ∷ w.calls }))
      → Keeps P (statement env c f)
  unfolding statement
  Keeps-statement env c f k l = record {
    at = λ w h.
        statement_answer-at P (env.on_act w.calls c) f (record w { calls = c ∷ w.calls }) (k w h)
          (l w h);
  }

  pub Keeps-act :
      (env : Env) (c : Call)
      → ((w : World D) → P w → P (record w { calls = c ∷ w.calls }))
      → Keeps P (act env c)
  unfolding act
  Keeps-act env c k = Keeps-statement env c (λ d. d) k k

-- An invariant of the world, of a state that holds a report too.
pub record OnWorld {D R : Type 0} (P : World D → Type 0) (s : Reporting D R) : Type 0 where
  pub holds : P s.world

module _ {D R A : Type 0} where
  put_world-at :
      (P : World D → Type 0) (r : R) (x : Result Error A × World D)
      → P x.1
      → P (put_world r x).1.world
  unfolding put_world
  put_world-at P r (a, w) h = h

module _ {D R A : Type 0} {P : World D → Type 0} where
  pub Keeps-within : (m : Exec (World D) Error A) → Keeps P m → Keeps (OnWorld {R = R} P) (within m)
  unfolding within
  Keeps-within m k = record {
    at = λ s h. record { holds = put_world-at P s.report (m s.world) (k.at s.world h.holds) };
  }

module _ {D R : Type 0} {P : World D → Type 0} where
  pub Keeps-report_as : (f : R → R) → Keeps (OnWorld P) (report_as f)
  unfolding report_as
  Keeps-report_as f = record { at = λ s h. record { holds = h.holds } }

pub ruleset service_rules =
    (keeps_rules, Keeps-ask, Keeps-statement, Keeps-act, Keeps-within, Keeps-report_as)

module _ {D : Type 0} where
  statement_answer-Post :
      (P : World D → Type 0) (o : Option Error) (f : D → D) (w : World D)
      → P w
      → P (record w { device = f w.device })
      → Post (λ _ v. P v) (λ _ v. P v) (statement_answer o f w)
  unfolding statement_answer
  statement_answer-Post P none f w h k = k
  statement_answer-Post P (some e) f w h k = h

module _ {D : Type 0} {P P' : World D → Type 0} where
  -- From one condition to another, over one call.
  pub Runs-act :
      (env : Env) (c : Call)
      → ((w : World D) → P w → P' (record w { calls = c ∷ w.calls }))
      → Runs P (act env c) (λ _ w. P' w) (λ _ w. P' w)
  unfolding act statement
  Runs-act env c k = record {
    at = λ w h.
        let after : World D = record w { calls = c ∷ w.calls } in
        statement_answer-Post P' (env.on_act w.calls c) (λ d. d) after (k w h) (k w h);
  }

module _ {D R A : Type 0} where
  put_world-Post :
      (Q : A → World D → Type 0) (Q' : Error → World D → Type 0) (r : R)
      (x : Result Error A × World D)
      → Post Q Q' x
      → Post (λ a s. OnWorld (Q a) s) (λ e s. OnWorld (Q' e) s) (put_world r x)
  unfolding put_world
  put_world-Post Q Q' r (ok a, w) h = record { holds = h }
  put_world-Post Q Q' r (err e, w) h = record { holds = h }

module _ {D R A : Type 0} {P : World D → Type 0} {Q : A → World D → Type 0}
    {Q' : Error → World D → Type 0} where
  pub Runs-within :
      (m : Exec (World D) Error A)
      → Runs P m Q Q'
      → Runs (OnWorld {R = R} P) (within m) (λ a s. OnWorld (Q a) s) (λ e s. OnWorld (Q' e) s)
  unfolding within
  Runs-within m k = record {
    at = λ s h. put_world-Post Q Q' s.report (m s.world) (k.at s.world h.holds);
  }

module _ {D : Type 0} where
  answered :
      (P R : World D → Type 0) (o : Option Error) (f : D → D) (w : World D)
      → (o ≡ none → P (record w { device = f w.device }))
      → R w
      → Post (λ _ v. P v) (λ _ v. R v) (statement_answer o f w)
  unfolding statement_answer
  answered P R none f w k h = k refl
  answered P R (some e) f w k h = h

module _ {D : Type 0} {P P' R : World D → Type 0} where
  -- The first condition may use that the call succeeded.
  pub Runs-statement :
      (env : Env) (c : Call) (f : D → D)
      → ((w : World D)
          → P w
          → env.on_act w.calls c ≡ none
          → P' (record { device = f w.device; calls = c ∷ w.calls }))
      → ((w : World D) → P w → R (record w { calls = c ∷ w.calls }))
      → Runs P (statement env c f) (λ _ w. P' w) (λ _ w. R w)
  unfolding statement
  Runs-statement env c f k l = record {
    at = λ w h.
        answered P' R (env.on_act w.calls c) f (record w { calls = c ∷ w.calls }) (k w h) (l w h);
  }

module _ {D A : Type 0} where
  answer-Post :
      (Q : A → World D → Type 0) (R : World D → Type 0) (r : Result Error A) (w : World D)
      → ((a : A) → r ≡ ok a → Q a w)
      → R w
      → Post Q (λ _ v. R v) (r, w)
  answer-Post Q R (ok a) w k h = k a refl
  answer-Post Q R (err e) w k h = h

module _ {D A : Type 0} {P R : World D → Type 0} {Q : A → World D → Type 0} where
  -- The first condition may use what the service answered.
  pub Runs-ask :
      (c : Call) (answer : Calls → Result Error A)
      → ((w : World D)
          → P w
          → (a : A) → answer w.calls ≡ ok a
          → Q a (record w { calls = c ∷ w.calls }))
      → ((w : World D) → P w → R (record w { calls = c ∷ w.calls }))
      → Runs P (ask c answer) Q (λ _ w. R w)
  unfolding ask
  Runs-ask c answer k l = record {
    at = λ w h. answer-Post Q R (answer w.calls) (record w { calls = c ∷ w.calls }) (k w h) (l w h);
  }
