-- ===== src/Exec.antt =====
-- Asynchronous methods as state passing: what a method has done before it throws stays done, so the
-- state comes back beside the error.
pub mod Laws
pub mod Keeps
use intell_api.Prelude.{String, Bool, true, false}

-- The errors that the services throw: those of the framework by their class, and any other.
pub data Error : Type 0 where
  not_found conflict forbidden unauthorized bad_request internal service_unavailable :
      String → Error
  thrown : String → Error

pub data Result {ℓ} (A : Type ℓ) : Type ℓ where
  ok : A → Result A
  err : Error → Result A

abbrev pub Exec {ℓ} : Type ℓ → Type ℓ → Type ℓ
Exec W A = W → Result A × W

module _ {ℓ} {W A : Type ℓ} where
  abbrev pub pure : A → Exec W A
  pure a w = (ok a, w)

  abbrev pub throw : Error → Exec W A
  throw e w = (err e, w)

  -- A query: it may fail, and changes nothing.
  abbrev pub query : (W → Result A) → Exec W A
  query f w = (f w, w)

  -- `try { m } catch (e) { handler(e) }`
  abbrev pub recover : Result A → (Error → Exec W A) → Exec W A
  recover (ok a) h w = (ok a, w)
  recover (err e) h w = h e w

  abbrev pub try_catch : Exec W A → (Error → Exec W A) → Exec W A
  try_catch m h w = let (r, w') = m w in recover r h w'

module _ {ℓ} {W A B : Type ℓ} where
  abbrev pub resume : Result A → (A → Exec W B) → Exec W B
  resume (ok a) f w = f a w
  resume (err e) f w = (err e, w)

  infixl 10 ◌>>=◌ ◌>>◌
  abbrev pub ◌>>=◌ : Exec W A → (A → Exec W B) → Exec W B
  ◌>>=◌ m f w = let (r, w') = m w in resume r f w'

  abbrev pub ◌>>◌ : Exec W A → Exec W B → Exec W B
  m >> n = m >>= λ _. n

abbrev pub when {ℓ} : {W : Type ℓ} → Bool → Exec W (Unit {ℓ}) → Exec W (Unit {ℓ})
when true m = m
when false m = pure tt
