-- ===== src/Http.antt =====
-- What a request handler gives back: a response, or the `HTTPException` that it raises.
use mathlib.Core.Path.{subst}
use meshive.Prelude.{◌≡◌, refl, ap, ℕ, String, Bool, true, false, Option, none, some}

-- `HTTPException(status_code, detail)`
pub record HttpError : Type 0 where
  pub status : ℕ
  pub detail : String

pub data Response (A : Type 0) : Type 0 where
  ok : A → Response A
  error : HttpError → Response A

abbrev pub http_error : ℕ → String → HttpError
http_error status detail = record { status = status; detail = detail }

infixl 5 ◌>>=◌ ◌>>◌
unfoldable pub ◌>>=◌ : {A B : Type 0} → Response A → (A → Response B) → Response B
ok a >>= f = f a
error e >>= f = error e

abbrev pub ◌>>◌ : {B : Type 0} → Response (Unit {0}) → Response B → Response B
m >> k = m >>= λ _. k

-- `if not test: raise`
abbrev pub require : Bool → HttpError → Response (Unit {0})
require true e = ok tt
require false e = error e

-- `if row is None: raise`
abbrev pub found : {A : Type 0} → Option A → HttpError → Response A
found none e = error e
found (some a) e = ok a

abbrev pub is_ok : {A : Type 0} → Response A → Bool
is_ok (ok a) = true
is_ok (error e) = false

value_or : {A : Type 0} → A → Response A → A
value_or d (ok a) = a
value_or d (error e) = d

pub ok-injective : {A : Type 0} {a b : A} → ok a ≡ ok b → a ≡ b
unfolding value_or
ok-injective {a} h = ap (value_or a) h

-- What a handler that returned has been through, step by step.
module _ {A B C : Type 0} where
  pub bind-inv :
      (m : Response A) (f : A → Response B) {b : B}
      → (m >>= f) ≡ ok b
      → ((a : A) → m ≡ ok a → f a ≡ ok b → C)
      → C
  unfolding ◌>>=◌
  bind-inv (ok a) f h k = k a refl h
  bind-inv (error e) f h k = cc

  pub found-inv :
      (o : Option A) (e : HttpError) (f : A → Response B) {b : B}
      → (found o e >>= f) ≡ ok b
      → ((a : A) → o ≡ some a → f a ≡ ok b → C)
      → C
  unfolding ◌>>=◌
  found-inv none e f h k = cc
  found-inv (some a) e f h k = k a refl h

module _ {B C : Type 0} where
  pub require-inv :
      (test : Bool) (e : HttpError) (rest : Response B) {b : B}
      → (require test e >> rest) ≡ ok b
      → (test ≡ true → rest ≡ ok b → C)
      → C
  unfolding ◌>>=◌
  require-inv true e rest h k = k refl h
  require-inv false e rest h k = cc

-- A predicate of what a handler returns, if it returns.
abbrev pub Holds {ℓ} : {A : Type 0} → (A → Type ℓ) → Response A → Type ℓ
Holds P (ok a) = P a
Holds P (error e) = Unit

module _ {ℓ} {B : Type 0} (P : B → Type ℓ) where
  pub require-Holds :
      (test : Bool) (e : HttpError) (rest : Response B)
      → (test ≡ true → Holds P rest)
      → Holds P (require test e >> rest)
  unfolding ◌>>=◌
  require-Holds true e rest h = h refl
  require-Holds false e rest h = tt

  pub found-Holds :
      {A : Type 0} (o : Option A) (e : HttpError) (f : A → Response B)
      → ((a : A) → o ≡ some a → Holds P (f a))
      → Holds P (found o e >>= f)
  unfolding ◌>>=◌
  found-Holds none e f h = tt
  found-Holds (some a) e f h = h a refl

  pub Holds-ok : (m : Response B) {b : B} → Holds P m → m ≡ ok b → P b
  Holds-ok (ok a) h e = subst P (ok-injective e) h
  Holds-ok (error e') h e = cc
