-- ===== src/Auth/Commands.antt =====
-- The commands generate_auth_token and generate_auth_key of src/common/management/commands, and
-- `generate_token` of src/common/utils.py. What `jose` encodes, the clock and JSON stand outside.
pub mod Payload
pub mod Accepted
pub mod KeySets
use mathlib.Core.List.{List, [], ◌∷◌}
use text.Mathlib.Text.{◌==◌}
use sta_generation_service.Prelude.{
  ℕ, ◌+◌, ◌*◌, String, Bool, true, false, ◌||◌, Option, none, some, is_some, if◌then◌else◌,
}
use sta_generation_service.Dict.{Dict, insert, update, lookup}
use sta_generation_service.Sparql.Terms.{Value, str}
use sta_generation_service.Auth.Keys.{Key}
use sta_generation_service.Auth.Startup.{StartSettings, Secrets, secret_kid}
use sta_generation_service.Auth.Tokens.{Claims}

-- datetime of a number of seconds, as a value, and jwt.encode with a "kid" in the header.
pub record Encoder : Type 0 where
  pub moment : ℕ → Value
  pub encode : (payload : Claims) → Key → (algorithm : String) → (kid : String) → String

module _ (encoder : Encoder) where
  -- The claims that every token has from the start.
  unfoldable pub standard_claims : (now : ℕ) → (issuer : String) → (timeout : ℕ) → Claims
  standard_claims now issuer timeout =
      ("iss", str issuer)
      ∷ ("iat", encoder.moment now)
      ∷ ("nbf", encoder.moment now)
      ∷ ("exp", encoder.moment (now + timeout))
      ∷ []

  unfoldable pub generate_token :
      (now : ℕ)
      → (issuer kid : String) → Key
      → (timeout : ℕ) → (algorithm : String) → Claims
      → String
  unfolding standard_claims update
  generate_token now issuer kid key timeout algorithm claims =
      encoder.encode (update (standard_claims now issuer timeout) claims) key algorithm kid

-- The arguments of generate_auth_token.
pub record TokenArguments : Type 0 where
  pub subject : String
  pub secret : String
  pub issuer : String
  pub kid : String
  pub timeout : ℕ
  pub claims : Option String

-- The default of --timeout, in seconds.
abbrev pub default_timeout : ℕ
default_timeout = 60 * 60 * 24 * 100

-- add_arguments: what a command line with a subject only gives.
unfoldable pub token_arguments : Secrets → StartSettings → String → TokenArguments
unfolding secret_kid
token_arguments secrets settings subject = record {
  subject = subject;
  secret = settings.secret_key;
  issuer = settings.main_domain;
  kid = secret_kid secrets settings.secret_key;
  timeout = 60 * 60 * 24 * 100;
  claims = none;
}

-- The names that `generate_token` takes by position: a keyword of the same name raises TypeError.
abbrev pub taken_names : List String
taken_names = "issuer" ∷ "kid" ∷ "key" ∷ "timeout" ∷ "algorithm" ∷ []

unfoldable pub has_any : {V : Type 0} → List String → Dict V → Bool
unfolding lookup
has_any [] d = false
has_any (k ∷ ks) d = is_some (lookup k d) || has_any ks d

-- json.loads of the extra claims: none where it raises, or `update` does with what it gives.
abbrev pub Loads : Type 0
Loads = String → Option Claims

-- default_claims, updated where there are extra claims.
unfoldable pub extended : Loads → Option String → Claims → Option Claims
unfolding update
extended loads none claims = some claims
extended loads (some text) claims =
    if text == ""
    then some claims
    else elim (loads text) [ none ↦ none | some extra ↦ some (update claims extra) ]

module _ (encoder : Encoder) (secrets : Secrets) (loads : Loads) where
  -- The call of `generate_token`, unless its keywords clash.
  token_of : ℕ → TokenArguments → Option Claims → Option String
  unfolding generate_token has_any
  token_of now arguments none = none
  token_of now arguments (some claims) =
      if has_any taken_names claims
      then none
      else some (
          generate_token encoder now arguments.issuer arguments.kid
            (secrets.text_key arguments.secret) arguments.timeout "HS256" claims)

  -- Command.handle of generate_auth_token: what it writes, or none where it raises.
  unfoldable pub write_token : (subject_claim : String) → ℕ → TokenArguments → Option String
  unfolding extended token_of
  write_token subject_claim now arguments =
      token_of now arguments
        (extended loads arguments.claims ((subject_claim, str arguments.subject) ∷ []))

-- The arguments of generate_auth_key.
pub record KeyArguments : Type 0 where
  pub secret : String
  pub random : Bool
  pub issuer : String
  pub kid : String

unfoldable pub key_arguments : StartSettings → KeyArguments
key_arguments settings = record {
  secret = settings.secret_key;
  random = false;
  issuer = "default-issuer";
  kid = "default-kid";
}

-- get_random_string(50), and to_dict() of an HMACKey for HS256 with its names and values as text.
pub record KeyMaker : Type 0 where
  pub random_string : ℕ → String
  pub hmac_dict : String → Dict String

-- Command.handle of generate_auth_key: what it writes as JSON.
unfoldable pub write_key : KeyMaker → KeyArguments → Dict (Dict (List (Dict String)))
unfolding insert
write_key maker arguments =
    let key = if arguments.random then maker.random_string 50 else arguments.secret in
    let jwk_dict = insert "kid" arguments.kid (maker.hmac_dict key) in
    (arguments.issuer, ("keys", jwk_dict ∷ []) ∷ []) ∷ []
