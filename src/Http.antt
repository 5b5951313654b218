-- ===== src/Http.antt =====
-- What a request of a service answers: a value, or the HTTP error that it throws
-- (packages/service-kit/src/errors.ts), with the new state of the service.
use xitter.Prelude.{◌≡◌, refl, Bool, true, false, Option, none, some, ◌⊎◌, inl, inr}

-- `internal` is what is thrown for any other reason, such as a rejected query.
pub data HttpError : Type 0 where
  bad_request unauthenticated forbidden not_found : HttpError
  payload_too_large unsupported_media_type rate_limited internal : HttpError

pub data Result (A : Type 0) : Type 0 where
  ok : A → Result A
  err : HttpError → Result A

abbrev pub is_ok : {A : Type 0} → Result A → Bool
is_ok (ok a) = true
is_ok (err e) = false

abbrev pub Action : Type 0 → Type 0 → Type 0
Action S A = S → Result A × S

infixl 5 ◌>>=◌ ◌>>◌
abbrev pub ◌>>=◌ : {S A B : Type 0} → Action S A → (A → Action S B) → Action S B
◌>>=◌ m f s = let (r, s') = m s in elim r [ ok a ↦ f a s' | err e ↦ (err e, s') ]

abbrev pub ◌>>◌ : {S A B : Type 0} → Action S A → Action S B → Action S B
m >> k = m >>= λ _. k

abbrev pub pure : {S A : Type 0} → A → Action S A
pure a s = (ok a, s)

abbrev pub throw : {S A : Type 0} → HttpError → Action S A
throw e s = (err e, s)

abbrev pub throw_if : {S : Type 0} → Bool → HttpError → Action S (Unit {0})
throw_if true e s = (err e, s)
throw_if false e s = (ok tt, s)

abbrev pub gets : {S A : Type 0} → (S → A) → Action S A
gets f s = (ok (f s), s)

abbrev pub modify : {S : Type 0} → (S → S) → Action S (Unit {0})
modify f s = (ok tt, f s)

abbrev pub when : {S : Type 0} → Bool → Action S (Unit {0}) → Action S (Unit {0})
when true m = m
when false m = pure tt

abbrev pub or_throw : {S A : Type 0} → Option A → HttpError → Action S A
or_throw none e = throw e
or_throw (some a) e = pure a

pub Result-cases :
    {A : Type 0} → (r : Result A) → ((e : HttpError) × r ≡ err e) ⊎ ((a : A) × r ≡ ok a)
Result-cases (err e) = inl (e, refl)
Result-cases (ok a) = inr (a, refl)
