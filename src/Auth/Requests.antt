-- ===== src/Auth/Requests.antt =====
-- TokenAuthenticationMiddleware and `token_required` of src/common/auth/django.py. The lazy object
-- that the middleware puts into a request is read where a view asks for `request.claims`.
pub mod Guard
use mathlib.Core.List.{List, [], ◌∷◌}
use sta_generation_service.Prelude.{ℕ, String, Bool, true, false, Option, none, some, if◌then◌else◌}
use sta_generation_service.Auth.Keys.{KeyCache, Provider}
use sta_generation_service.Auth.Tokens.{
  Attempt, gives, value_error, key_error, Settings, Claims, Credentials, Jose, ◌then_◌, process,
}

-- A request with its attribute `_cached_claims`, if that is set.
pub record Incoming : Type 0 where
  pub credentials : Credentials
  pub cached_claims : Option (Option Claims)

-- A JsonResponse with a message, or what a view answers.
pub data Answer (R : Type 0) : Type 0 where
  message : (status : ℕ) → (text : String) → Answer R
  viewed : R → Answer R

-- A view on a request and the state of the key cache.
abbrev pub View : Type 0 → Type 0 → Type 0
View C R = Incoming → C → Attempt R × Incoming × C

-- `self.handler.process(request)` with `except ValueError`; the attribute is set in both cases.
remember :
    {C : Type 0} → Incoming → Attempt (Option Claims) × C → Attempt (Option Claims) × Incoming × C
remember request (gives claims, c) =
    (gives claims, record request { cached_claims = some claims }, c)
remember request (value_error text, c) =
    (gives none, record request { cached_claims = some none }, c)
remember request (key_error, c) = (key_error, request, c)

-- not request.claims
abbrev has_claims : Option Claims → Bool
has_claims none = false
has_claims (some []) = false
has_claims (some (claim ∷ claims)) = true

-- The view runs where there are claims.
guarded :
    {C R : Type 0}
    → View C R
    → Attempt (Option Claims) × Incoming × C
    → Attempt (Answer R) × Incoming × C
guarded view (gives claims, request, c) =
    let (answer, request', c') = view request c in
    if has_claims claims
    then ((answer then_ λ r. gives (viewed r)), request', c')
    else (gives (message 401 "Missing or invalid authentication token."), request, c)
guarded view (value_error text, request, c) = (value_error text, request, c)
guarded view (key_error, request, c) = (key_error, request, c)

module _ {C : Type 0} (settings : Settings) (jose : Jose) (cache : KeyCache C)
    (provider : Provider) where
  claims_from : Option (Option Claims) → View C (Option Claims)
  unfolding process remember
  claims_from (some claims) request c = (gives claims, request, c)
  claims_from none request c =
      remember request (process settings jose cache provider request.credentials c)

  unfoldable pub get_claims : View C (Option Claims)
  unfolding claims_from
  get_claims request c = claims_from request.cached_claims request c

  unfoldable pub token_required : {R : Type 0} → View C R → View C (Answer R)
  unfolding get_claims guarded
  token_required view request c = guarded view (get_claims request c)
