-- ===== src/Tests/Sessions.antt =====
-- A session by cookie, a view behind a token, and a token that the command writes.
use Prim.Native.String.{[], ◌∷◌}
use mathlib.Core.List.{[], ◌∷◌}
use sta_generation_service.Prelude.{ℕ, String, false, none, some, ◌≡◌, refl, eq_refl, arith}
use sta_generation_service.Dict.{Dict, lookup, insert}
use sta_generation_service.Dict.Laws.{lookup-insert}
use sta_generation_service.Sparql.Terms.{str, object}
use sta_generation_service.Settings.{default_auth, default_start}
use sta_generation_service.Auth.Keys.{Key}
use sta_generation_service.Auth.Keys.Sound.{Sound}
use sta_generation_service.Auth.Startup.{Secrets, secret_kid, ready, start}
use sta_generation_service.Auth.Startup.Sound.{IsSecret, start-Sound}
use sta_generation_service.Auth.Tokens.{
  gives, Claims, Credentials, signed, Jose, header_token, get_token, audience, process,
  authenticate,
}
use sta_generation_service.Auth.Tokens.Claims.{Verified}
use sta_generation_service.Auth.Requests.{Incoming, View, token_required}
use sta_generation_service.Auth.Requests.Guard.{token_required-Verified}
use sta_generation_service.Auth.Views.{cookiefy}
use sta_generation_service.Auth.Views.Session.{cookiefy-process}
use sta_generation_service.Auth.Commands.{Encoder, default_timeout, token_arguments, write_token}
use sta_generation_service.Auth.Commands.Payload.{RoundTrip, read_claims, payload}
use sta_generation_service.Auth.Commands.Accepted.{Keeps, write_token-authenticate}
use sta_generation_service.Tests.Auth.{
  dict_cache, dict_cache-Honest, op, TrustsOp, settings, ada, jose, bearer, found_keys,
}

cookiefy-process_example :
    let token : String = "t0ken" in
    (token ≡ token)
    × ((claims : Claims) × Verified settings jose dict_cache op "t0ken" claims [] found_keys
        × ((request : Credentials)
            → header_token settings request.header ≡ gives none
            → request.cookie ≡ signed "t0ken"
            → process settings jose dict_cache op request found_keys
              ≡ (gives (some claims), found_keys)))
unfolding cookiefy insert
cookiefy-process_example =
    cookiefy-process settings jose dict_cache op "t0ken" "t0ken" 200
      "Token was placed in the cookie." [] found_keys refl refl

-- A view that answers with the number 7.
abbrev seven : View (Dict (String × Key)) ℕ
seven request c = (gives 7, request, c)

abbrev incoming : Incoming
incoming = record { credentials = bearer; cached_claims = none }

abbrev served : Incoming
served = record { credentials = bearer; cached_claims = some (some ada) }

token_required-Verified_example :
    (claims : Claims) × (d : Dict (String × Key)) × (seven
        (record incoming { cached_claims = some (some claims) })
        d
      ≡ (gives 7, served, found_keys))
    × ((token : String) × (get_token settings incoming.credentials ≡ gives (some token))
        × Verified settings jose dict_cache op token claims [] d)
unfolding token_required insert
token_required-Verified_example =
    token_required-Verified settings jose dict_cache op seven incoming served [] found_keys 7 refl
      refl

abbrev secrets : Secrets
secrets = record {
  hexdigest = λ s. "c0ffee";
  text_key = λ s. record { is_dict = false; kid = none; number = 0 };
}

abbrev secret_entry : String × Key
secret_entry = ("localhost.sta", record { is_dict = false; kid = none; number = 0 })

nothing-Sound : Sound dict_cache dict_cache-Honest op TrustsOp (IsSecret secrets default_start) []
unfolding lookup
nothing-Sound kid entry bad = absurd (cc)

start-Sound_example :
    Sound dict_cache dict_cache-Honest op TrustsOp
      (IsSecret secrets default_start)
      (("kid:https://op:c0ffee", secret_entry) ∷ [])
unfolding start insert
start-Sound_example =
    start-Sound dict_cache dict_cache-Honest op TrustsOp secrets default_start []
      (("kid:https://op:c0ffee", secret_entry) ∷ []) tt nothing-Sound refl

dict_cache-Keeps : Keeps dict_cache
dict_cache-Keeps c k entry = rw (lookup-insert k k entry c, eq_refl k) refl

abbrev encoder : Encoder
encoder = record {
  moment = λ seconds. object seconds;
  encode = λ claims key algorithm kid. "t0ken";
}

-- A library that knows one token, for the default settings and one subject.
abbrev knows : Jose
knows = record {
  unverified_kid = λ token. gives (some (secret_kid secrets default_start.secret_key));
  decode = λ token key issuer aud.
      gives
        (read_claims (λ v. v) (payload encoder "sub" "ada" 1000 default_timeout "localhost.sta"));
}

knows-RoundTrip :
    RoundTrip knows encoder 2000
      (payload encoder "sub" "ada" 1000 default_timeout "localhost.sta")
      (secrets.text_key default_start.secret_key)
      (secret_kid secrets default_start.secret_key)
knows-RoundTrip = record {
  read = λ v. v;
  read_text = λ s. refl;
  filled = refl;
  named = refl;
  opened = λ issuer issued begin end iss iat nbf since exp until hash sub jti. refl;
}

write_token-authenticate_example :
    (token : String) × (claims : Claims) × (write_token encoder secrets
        (λ s. none)
        "sub"
        1000
        (token_arguments secrets default_start "ada")
      ≡ some token)
    × ((request : Credentials)
        → get_token default_auth request ≡ gives (some token)
        → authenticate default_auth knows dict_cache op request
            (ready dict_cache op secrets default_start [])
          ≡ (gives (some (str "ada", claims)), ready dict_cache op secrets default_start []))
unfolding audience
write_token-authenticate_example =
    write_token-authenticate default_auth knows encoder dict_cache op secrets (λ s. none)
      default_start "ada" 1000 2000 [] knows-RoundTrip dict_cache-Keeps refl refl
      (refl, (refl, (refl, (refl, (refl, tt))))) (refl, (refl, (refl, (refl, (refl, tt))))) tt
      (omega arith) (omega arith)
