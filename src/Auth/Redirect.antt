-- ===== src/Auth/Redirect.antt =====
-- common/utils/redirect.util.ts, and googleCallbackRedirect of modules/auth/auth.service.ts.
use intell_api.Prelude.{
  String, Bool, false, ◌||◌, not, Option, none, some, List, any_of, if◌then◌else◌, str_eq,
}
use intell_api.Exec.{Error, forbidden, Result, ok}
use intell_api.Auth.Backend.{Url}

abbrev invalid_url : Error
invalid_url = forbidden "Invalid redirect URL"

module _ (parse_url : String → Option Url) where
  -- new URL(allowed).origin === parsed.origin, and false where the constructor throws.
  abbrev pub has_origin : String → String → Bool
  has_origin origin allowed = elim (parse_url allowed) [
    | none ↦ false
    | some url ↦ str_eq url.origin origin
  ]

  unfoldable pub validate_parsed : Option Url → List String → Result (Unit {0})
  validate_parsed none allowed = Result.err invalid_url
  validate_parsed (some url) allowed =
      if not (str_eq url.protocol "http:" || str_eq url.protocol "https:")
      then Result.err (forbidden "Invalid redirect URL protocol")
      else if not (any_of (has_origin url.origin) allowed)
      then Result.err (forbidden "Redirected URL origin not permitted")
      else ok tt

  unfoldable pub validate_redirect_url : String → List String → Result (Unit {0})
  unfolding validate_parsed
  validate_redirect_url url allowed = validate_parsed (parse_url url) allowed
