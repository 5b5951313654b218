-- ===== src/Reset/Keeps.antt =====
-- Actions of a reset that keep a test of its state true
-- (packages/scripts/src/reset-flow.ts).
use xitter.Prelude.{
  ℕ, zero, suc, ◌≡◌, Bool, true, false, not, List, [], ◌∷◌, is_empty, arith, inl, inr,
}
use xitter.Http.{
  Result, ok, err, HttpError, internal, Action, ◌>>=◌, ◌>>◌, throw_if, gets, modify, when,
  Result-cases,
}
use xitter.Fanout.{Outcome, answered, refused, lost}
use xitter.Reset.{
  Reset, Call, StepName, StepReport, Detail, Env, Service, call, tell, or_else, with_detail,
  set_detail, report, step, wait_for, pending, polled, reseeded, reseed_service, reseed_services,
}

-- Whatever an action answers, the test holds after it if it held before.
pub record Keeps (p : Reset → Bool) (A : Type 0) (m : Action Reset A) : Type 0 where
  pub keeps : (s : Reset) → p s ≡ true → p (m s).1 ≡ true

-- The test looks at no report, and an entry of an allowed call in the log keeps it.
pub record IsBlind (allowed : Call → Bool) (p : Reset → Bool) : Type 0 where
  pub reports : (s : Reset) (xs : List StepReport) → p (record s { steps = xs }) ≡ p s
  pub logs :
      (c : Call) (s : Reset) (xs : List Outcome)
      → allowed c ≡ true
      → p s ≡ true
      → p (record s { calls = c ∷ s.calls; script = xs }) ≡ true

module _ {p : Reset → Bool} where
  pub Keeps-then :
      {A B : Type 0} {m : Action Reset A} {f : A → Action Reset B}
      → Keeps p A m
      → ((a : A) → Keeps p B (f a))
      → Keeps p B (m >>= f)
  Keeps-then {A} {B} {m} {f} km kf = record {
    keeps = λ s h. elim (Result-cases (m s).0) [
      | inl (e, failed) ↦ ground (arith, failed, km.keeps s h)
      | inr (a, worked) ↦ ground (arith, worked, km.keeps s h, (kf a).keeps (m s).1)
    ];
  }

  pub Keeps-seq :
      {A B : Type 0} {m : Action Reset A} {k : Action Reset B}
      → Keeps p A m
      → Keeps p B k
      → Keeps p B (m >> k)
  Keeps-seq km kk = Keeps-then km (λ a. kk)

  pub Keeps-or_else :
      {m k : Action Reset (Unit {0})}
      → Keeps p (Unit {0}) m
      → Keeps p (Unit {0}) k
      → Keeps p (Unit {0}) (or_else m k)
  Keeps-or_else {m} {k} km kk = record {
    keeps = λ s h. elim (Result-cases (m s).0) [
      | inl (e, failed) ↦ ground (arith, failed, km.keeps s h, kk.keeps (m s).1)
      | inr (a, worked) ↦ ground (arith, worked, km.keeps s h)
    ];
  }

  pub Keeps-when :
      (b : Bool) {m : Action Reset (Unit {0})}
      → Keeps p (Unit {0}) m
      → Keeps p (Unit {0}) (when b m)
  Keeps-when true k = k
  Keeps-when false k = record { keeps = λ s h. h }

  pub Keeps-throw_if : (b : Bool) (e : HttpError) → Keeps p (Unit {0}) (throw_if b e)
  Keeps-throw_if true e = record { keeps = λ s h. h }
  Keeps-throw_if false e = record { keeps = λ s h. h }

  pub Keeps-pure : {A : Type 0} → (r : Result A) → Keeps p A (λ s. (r, s))
  Keeps-pure r = record { keeps = λ s h. h }

  pub Keeps-gets : {A : Type 0} → (f : Reset → A) → Keeps p A (gets f)
  Keeps-gets f = record { keeps = λ s h. h }

  pub Keeps-modify :
      (f : Reset → Reset)
      → ((s : Reset) → p s ≡ true → p (f s) ≡ true)
      → Keeps p (Unit {0}) (modify f)
  Keeps-modify f after = record { keeps = after }

  module _ {allowed : Call → Bool} (blind : IsBlind allowed p) where
    pub Keeps-step :
        {A : Type 0}
        → (name : StepName) {m : Action Reset A} → Keeps p A m
        → Keeps p A (step name m)
    unfolding step
    Keeps-step name {m} k = record {
      keeps = λ s h. rw (blind.reports (m s).1 (report name (m s).0 ∷ (m s).1.steps)) (k.keeps s h);
    }

    pub Keeps-set_detail : (d : Detail) → Keeps p (Unit {0}) (set_detail d)
    Keeps-set_detail d = record { keeps = λ s h. rw (blind.reports s (with_detail d s.steps)) h }

    -- A call keeps the test, whatever its outcome, if its effect does.
    pub Keeps-call :
        (c : Call) (effect : Reset → Reset)
        → allowed c ≡ true
        → ((s : Reset) → p s ≡ true → p (effect s) ≡ true)
        → Keeps p (Unit {0}) (call c effect)
    unfolding call
    Keeps-call c effect may after = record {
      keeps = λ s h.
          elim s.script as (λ script. p (call c effect (record s { script = script })).1 ≡ true) [
            | [] ↦ after _ (blind.logs c s [] may h)
            | answered ∷ rest ↦ after _ (blind.logs c s rest may h)
            | refused ∷ rest ↦ blind.logs c s rest may h
            | lost ∷ rest ↦ after _ (blind.logs c s rest may h)
          ];
    }

    pub Keeps-tell : (c : Call) → allowed c ≡ true → Keeps p (Unit {0}) (tell c)
    Keeps-tell c may = Keeps-call c (λ s. s) may (λ s h. h)

    pub Keeps-wait_for :
        (env : Env) (epoch poll n : ℕ)
        → allowed polled ≡ true
        → Keeps p (Unit {0}) (wait_for env epoch poll n)
    unfolding wait_for
    Keeps-wait_for env epoch poll zero may =
        Keeps-seq (Keeps-tell polled may)
          (Keeps-throw_if (not (is_empty (pending env epoch poll))) internal)
    Keeps-wait_for env epoch poll (suc n) may = Keeps-seq (Keeps-tell polled may) (
        Keeps-when (not (is_empty (pending env epoch poll)))
          (Keeps-wait_for env epoch (suc poll) n may))

    module _ (may : (x : Service) → allowed (reseeded x) ≡ true) where
      Keeps-reseed_service : (n : ℕ) (x : Service) → Keeps p (Unit {0}) (reseed_service n x)
      unfolding reseed_service
      Keeps-reseed_service zero x = Keeps-pure (err internal)
      Keeps-reseed_service (suc n) x =
          Keeps-or_else (Keeps-tell (reseeded x) (may x)) (Keeps-reseed_service n x)

      pub Keeps-reseed_services : (xs : List Service) → Keeps p (Unit {0}) (reseed_services xs)
      unfolding reseed_services
      Keeps-reseed_services [] = Keeps-pure (ok tt)
      Keeps-reseed_services (x ∷ xs) =
          Keeps-seq (Keeps-reseed_service 4 x) (Keeps-reseed_services xs)
