-- ===== src/Auth/Tokens/Accepts.antt =====
-- When a token is accepted.
use mathlib.Core.List.{List, [], ◌∷◌, ◌++◌}
use text.Mathlib.Text.{◌==◌}
use sta_generation_service.Prelude.{String, false, some, ◌≡◌, refl, ap}
use sta_generation_service.Auth.Keys.{Key, KeyCache, Provider, get_key}
use sta_generation_service.Auth.Tokens.{
  Attempt, gives, ◌then_◌, Settings, Claims, Credentials, Jose, get_token, validate_claims,
  audience, prefixed, known, key_for, get_decode_args, checked_claims, decode, decode_found,
  process,
}
use sta_generation_service.Auth.Tokens.Claims.{HasAll, Verified}

validate_claims-gives :
    (required : List String) (claims : Claims)
    → HasAll required claims
    → validate_claims required claims ≡ gives claims
unfolding validate_claims
validate_claims-gives [] claims all = refl
validate_claims-gives (claim ∷ required) claims (here, later) =
    rw (validate_claims, here) (validate_claims-gives required claims later)

module _ {C : Type 0} (settings : Settings) (jose : Jose) (cache : KeyCache C)
    (provider : Provider) where
  -- What a token needs to be decoded to claims.
  pub decode-gives :
      (token kid issuer : String) (key : Key) (claims : Claims) (c c' : C)
      → jose.unverified_kid token ≡ gives (some kid)
      → get_key cache provider kid c ≡ (some (issuer, key), c')
      → jose.decode token key issuer (audience settings.aud) ≡ gives claims
      → HasAll (settings.required_claims ++ settings.subject_claim ∷ []) claims
      → decode settings jose cache provider token c ≡ (gives claims, c')
  unfolding decode get_decode_args key_for known prefixed checked_claims
  decode-gives token kid issuer key claims c c' named stored decoded complete =
      rw (decode, get_decode_args, named, prefixed, key_for, stored, known, checked_claims, decoded)
        (ap (λ a. (a, c')) (validate_claims-gives _ claims complete))

  -- A verified token is decoded to the same claims wherever the store gives the same key again.
  pub decode-again :
      (token : String) (claims : Claims) (c c' d d' : C)
      (v : Verified settings jose cache provider token claims c c')
      → get_key cache provider v.kid d ≡ (some (v.issuer, v.key), d')
      → decode settings jose cache provider token d ≡ (gives claims, d')
  decode-again token claims c c' d d' v kept =
      decode-gives token v.kid v.issuer v.key claims d d' v.named kept v.decoded v.complete

  pub process-token :
      (request : Credentials) (token : String) (claims : Claims) (c c' : C)
      → (token == "") ≡ false
      → get_token settings request ≡ gives (some token)
      → decode settings jose cache provider token c ≡ (gives claims, c')
      → process settings jose cache provider request c ≡ (gives (some claims), c')
  unfolding process decode_found
  process-token request token claims c c' filled found decoded =
      rw (process, found, decode_found, filled)
        (ap (λ (x : Attempt Claims × C). ((x.0 then_ λ a. gives (some a)), x.1)) decoded)
