-- ===== src/Auth/Views/Session.antt =====
-- A token that a view put into the cookie authenticates the requests after it.
use text.Mathlib.Text.{◌==◌}
use sta_generation_service.Prelude.{ℕ, String, false, none, some, ◌≡◌, refl, sym, ap, ◌∙◌, arith}
use sta_generation_service.Auth.Keys.{KeyCache, Provider}
use sta_generation_service.Auth.Keys.Again.{get_key-again}
use sta_generation_service.Auth.Tokens.{
  Attempt, gives, value_error, key_error, Settings, Claims, Credentials, signed, Jose, cookie_token,
  header_token, get_token, decode, process,
}
use sta_generation_service.Auth.Tokens.Claims.{Verified, decode-Verified}
use sta_generation_service.Auth.Tokens.Accepts.{decode-again, process-token}
use sta_generation_service.Auth.Views.{set_signed, response, placed, cookiefy}

-- A cookie is set after a decode that gives claims only, to the token that was decoded.
placed-gives :
    (token : String) (m : Attempt Claims) {status : ℕ} {text new : String}
    → placed token m ≡ response status text (set_signed new)
    → (claims : Claims) × (m ≡ gives claims) × (token ≡ new)
unfolding placed
placed-gives token (gives claims) h = (claims, refl, ground arith)
placed-gives token (value_error message) h = cc
placed-gives token key_error h = cc

-- The request has no token in its header, and the cookie that holds this one.
from_cookie :
    (settings : Settings) (request : Credentials) (token : String)
    → header_token settings request.header ≡ gives none
    → request.cookie ≡ signed token
    → get_token settings request ≡ gives (some token)
unfolding get_token cookie_token
from_cookie settings request token headless kept = rw (get_token, headless, kept) refl

-- The view sets the cookie to the posted token only, and only where this token is verified. A later
-- request with this cookie and no token in its header has the claims that were verified, and its
-- handling leaves the key store as it is: no key is discovered anew. The token is not empty.
pub cookiefy-process :
    {C : Type 0} (settings : Settings) (jose : Jose) (cache : KeyCache C) (provider : Provider)
    (token new : String) (status : ℕ) (text : String) (c c' : C)
    → cookiefy settings jose cache provider (some token) c
      ≡ (response status text (set_signed new), c')
    → (token == "") ≡ false
    → (token ≡ new)
      × ((claims : Claims) × Verified settings jose cache provider token claims c c'
          × ((request : Credentials)
              → header_token settings request.header ≡ gives none
              → request.cookie ≡ signed new
              → process settings jose cache provider request c' ≡ (gives (some claims), c')))
unfolding cookiefy
cookiefy-process settings jose cache provider token new status text c c' h filled =
    let run = decode settings jose cache provider token c in
    let (claims, found, same) = placed-gives token run.0 (ap (λ x. x.0) h) in
    let after : run.1 ≡ c' = ap (λ x. x.1) h in
    let v =
      decode-Verified settings jose cache provider token claims c c' (λ i. (found i, after i)) in
    let kept = get_key-again cache provider v.kid (v.issuer, v.key) c' c v.stored in
    let again = decode-again settings jose cache provider token claims c c' c' c' v kept in
    (
      same,
      (
        claims,
        v,
        λ request headless cookie.
            process-token settings jose cache provider request token claims c' c' filled
              (from_cookie settings request token headless (cookie ∙ ap signed (sym same))) again,
      ),
    )
