-- ===== src/Auth/Tokens.antt =====
-- Token getters and TokenHandler of src/common/auth/base.py, and TokenAuthentication
-- of src/common/auth/rest_framework.py.
pub mod Claims
pub mod Users
pub mod Accepts
use Prim.Native.String.{[], ◌∷◌}
use mathlib.Core.List.{List, [], ◌∷◌, ◌++◌}
use text.Mathlib.Text.{◌==◌}
use sta_generation_service.Prelude.{
  ℕ, String, Bool, true, false, not, ◌||◌, Char, code, Option, none, some, is_some, if◌then◌else◌,
}
use sta_generation_service.Dict.{Dict, lookup}
use sta_generation_service.Text.{◌<>◌, contains, is_space, strip_left, upper}
use sta_generation_service.Sparql.Terms.{Value}
use sta_generation_service.Auth.Keys.{Key, KeyCache, Provider, get_key}

-- A value, or the exceptions that this code meets: ValueError with its message, and KeyError.
pub data Attempt (A : Type 0) : Type 0 where
  gives : A → Attempt A
  value_error : (message : String) → Attempt A
  key_error : Attempt A

infixl 5 ◌then_◌
abbrev pub ◌then_◌ : {A B : Type 0} → Attempt A → (A → Attempt B) → Attempt B
gives a then_ f = f a
value_error message then_ f = value_error message
key_error then_ f = key_error

-- settings.AUTH_...; the cookie names, and the timeouts of requests, are in the parameters below.
pub record Settings : Type 0 where
  pub header_prefix : String
  pub required_claims : List String
  pub subject_claim : String
  pub aud : Option String

abbrev pub Claims : Type 0
Claims = Dict Value

-- request.get_signed_cookie(cookie_name)
pub data Cookie : Type 0 where
  signed : (token : String) → Cookie
  missing : Cookie
  bad_signature : (message : String) → Cookie

-- What a request gives to the getters: its header, and its signed cookie.
pub record Credentials : Type 0 where
  pub header : Option String
  pub cookie : Cookie

-- The library `jose`: the "kid" of a token's header, where an error has its message, and the
-- claims of a token for a key, an issuer and an audience that is required.
pub record Jose : Type 0 where
  pub unverified_kid : String → Attempt (Option String)
  pub decode : (token : String) → Key → (issuer : String) → (aud : Option String) → Attempt Claims

-- auth.split(maxsplit=1) of a text that does not begin with a space: the first word and the rest.
cut_word : String → String × String
cut_word [] = ([], [])
cut_word (c ∷ s) =
    let (word, rest) = cut_word s in
    if is_space (code c) then ([], strip_left s) else (c ∷ word, rest)

-- prefix, token = auth.split(maxsplit=1); fewer than two parts cannot be unpacked.
unfoldable pub unpack : String → Attempt (String × String)
unfolding strip_left cut_word
unpack auth =
    let (word, rest) = cut_word (strip_left auth) in
    if rest == ""
    then value_error
        ("not enough values to unpack (expected 2, got " <> (if word == "" then "0)" else "1)"))
    else gives (word, rest)

module _ (settings : Settings) where
  check_prefix : String × String → Attempt (Option String)
  check_prefix (prefix, token) =
      if prefix == settings.header_prefix
      then gives (some token)
      else value_error "Invalid authorization header prefix."

  -- TokenHeaderGetter.get_token
  unfoldable pub header_token : Option String → Attempt (Option String)
  unfolding contains unpack check_prefix
  header_token none = gives none
  header_token (some auth) =
      if auth == ""
      then gives none
      else if contains " " auth
      then (unpack auth then_ check_prefix)
      else value_error "Missing authorization header prefix."

-- TokenCookieGetter.get_token
unfoldable pub cookie_token : Cookie → Attempt (Option String)
cookie_token (signed token) = gives (some token)
cookie_token missing = gives none
cookie_token (bad_signature message) = value_error ("Error decoding cookie: " <> message)

-- TokenPostGetter.get_token
unfoldable pub post_token : Dict String → Option String
unfolding lookup
post_token form = lookup "token" form

-- TokenHandler.get_token for the getters [TokenHeaderGetter, TokenCookieGetter]
unfoldable pub get_token : Settings → Credentials → Attempt (Option String)
unfolding header_token cookie_token
get_token settings request = header_token settings request.header then_ λ found. elim found [
  | some token ↦ gives (some token)
  | none ↦ cookie_token request.cookie
]

-- validate_claims: the first claim that is missing raises.
unfoldable pub validate_claims : List String → Claims → Attempt Claims
unfolding lookup
validate_claims [] claims = gives claims
validate_claims (claim ∷ required) claims =
    let rest = validate_claims required claims in
    if is_some (lookup claim claims)
    then rest
    else value_error ("Missing '" <> (claim <> "' claim."))

-- settings.AUTH_AUD, where it is not empty.
unfoldable pub audience : Option String → Option String
audience none = none
audience (some aud) = if aud == "" then none else some aud

prefixed : {A : Type 0} → String → Attempt A → Attempt A
prefixed text (value_error message) = value_error (text <> message)
prefixed text other = other

-- The claims of a token under a key and its issuer.
unfoldable pub checked_claims : Settings → Jose → String → String × Key → Attempt Claims
unfolding prefixed audience validate_claims
checked_claims settings jose token (issuer, key) =
    prefixed "Error decoding token: " (jose.decode token key issuer (audience settings.aud))
    then_ validate_claims (settings.required_claims ++ settings.subject_claim ∷ [])

-- TokenAuthentication.authenticate: nobody, or a user with the claims. A ValueError stands here for
-- the AuthenticationFailed with its message.
unfoldable pub identified : Settings → Option Claims → Attempt (Option (Value × Claims))
unfolding lookup
identified settings none = gives none
identified settings (some []) = gives none
identified settings (some (claim ∷ claims)) =
    elim (lookup settings.subject_claim (claim ∷ claims)) [
      | none ↦ key_error
      | some user ↦ gives (some (user, claim ∷ claims))
    ]

known : Option (String × Key) → Attempt (String × Key)
known none = value_error "Unknown Key ID, not associated with any key definition."
known (some entry) = gives entry

module _ {C : Type 0} (settings : Settings) (jose : Jose) (cache : KeyCache C)
    (provider : Provider) where
  -- The key store is asked for a kid, if the header has one.
  key_for : Option String → C → Attempt (String × Key) × C
  unfolding get_key known
  key_for none c = (value_error "Missing 'kid' attribute in token header.", c)
  key_for (some kid) c = let (result, c') = get_key cache provider kid c in (known result, c')

  unfoldable pub get_decode_args : String → C → Attempt (String × Key) × C
  unfolding key_for prefixed
  get_decode_args token c =
      elim (prefixed "Error decoding token header: " (jose.unverified_kid token)) [
        | gives kid ↦ key_for kid c
        | value_error message ↦ (value_error message, c)
        | key_error ↦ (key_error, c)
      ]

  -- TokenHandler.decode
  unfoldable pub decode : String → C → Attempt Claims × C
  unfolding get_decode_args checked_claims
  decode token c =
      let (args, c') = get_decode_args token c in
      (args then_ checked_claims settings jose token, c')

  decode_found : Option String → C → Attempt (Option Claims) × C
  unfolding decode
  decode_found none c = (gives none, c)
  decode_found (some token) c =
      let (claims, c') = decode token c in
      let decoded : Attempt (Option Claims) × C = (claims then_ λ found. gives (some found), c') in
      if token == "" then (gives none, c) else decoded

  -- TokenHandler.process
  unfoldable pub process : Credentials → C → Attempt (Option Claims) × C
  unfolding get_token decode_found
  process request c = elim (get_token settings request) [
    | gives token ↦ decode_found token c
    | value_error message ↦ (value_error message, c)
    | key_error ↦ (key_error, c)
  ]

  unfoldable pub authenticate : Credentials → C → Attempt (Option (Value × Claims)) × C
  unfolding process identified
  authenticate request c =
      let (claims, c') = process request c in (claims then_ identified settings, c')
