-- ===== src/Auth/Commands/Accepted.antt =====
-- A token that generate_auth_token writes is accepted by the service that was started with the same
-- settings.
use sta_generation_service.Prelude.{
  ℕ, ◌+◌, ◌≤◌, String, true, Option, none, some, ◌≡◌, refl, ap, ◌∙◌,
}
use sta_generation_service.Dict.{lookup, update}
use sta_generation_service.Sparql.Terms.{str}
use sta_generation_service.Auth.Keys.{Key, KeyCache, Provider, cache_key, add, get_key}
use sta_generation_service.Auth.Keys.Again.{get_key-hit}
use sta_generation_service.Auth.Startup.{StartSettings, Secrets, secret_kid, ready}
use sta_generation_service.Auth.Tokens.{
  Attempt, gives, ◌then_◌, Settings, Claims, Credentials, Jose, get_token, audience, identified,
  decode, authenticate,
}
use sta_generation_service.Auth.Tokens.Claims.{HasAll}
use sta_generation_service.Auth.Tokens.Accepts.{decode-gives, process-token}
use sta_generation_service.Auth.Commands.{
  Encoder, default_timeout, standard_claims, generate_token, token_arguments, taken_names, has_any,
  Loads, extended, token_of, write_token,
}
use sta_generation_service.Auth.Commands.Payload.{
  RoundTrip, read_claims, reserved_names, IsOther, identified-some, payload, payload-opened,
  payload-HasAll, payload-subject,
}

-- The command writes this token: it has no name that `generate_token` takes by position.
write_token-payload :
    (encoder : Encoder) (secrets : Secrets) (loads : Loads) (settings : StartSettings)
    (claim subject : String) (now : ℕ)
    → IsOther claim taken_names
    → write_token encoder secrets loads claim now (token_arguments secrets settings subject)
      ≡ some (
          encoder.encode
            (payload encoder claim subject now default_timeout settings.main_domain)
            (secrets.text_key settings.secret_key)
            "HS256"
            (secret_kid secrets settings.secret_key))
unfolding write_token token_arguments extended token_of has_any lookup generate_token update payload
write_token-payload encoder secrets loads settings claim subject now
      (issuer, (kid, (key, (timeout, (algorithm, _))))) =
    rw (token_of, issuer, kid, key, timeout, algorithm) refl

-- The cache keeps what is set forever.
abbrev pub Keeps : {C : Type 0} → KeyCache C → Type 0
Keeps {C} cache =
    (c : C) (k : String) (entry : String × Key)
    → cache.get (cache.set c k entry none) k ≡ some entry

-- After `ready` the store gives the secret for its key ID.
ready-get_key :
    {C : Type 0} (cache : KeyCache C) (provider : Provider) (secrets : Secrets)
    (settings : StartSettings) (c : C)
    → Keeps cache
    → settings.add_secret_key ≡ true
    → get_key cache provider
        (secret_kid secrets settings.secret_key)
        (ready cache provider secrets settings c)
      ≡ (
        some (settings.main_domain, secrets.text_key settings.secret_key),
        ready cache provider secrets settings c,
      )
unfolding get_key ready add
ready-get_key cache provider secrets settings c keeps adds =
    let kid = secret_kid secrets settings.secret_key in
    let entry : String × Key = (settings.main_domain, secrets.text_key settings.secret_key) in
    get_key-hit cache provider kid entry (ready cache provider secrets settings c)
      (rw (ready, adds) (keeps c (cache_key provider kid) entry))

-- The service takes what generate_auth_token writes for a subject with the default arguments: where
-- the secret of the application is a key of the started service and no audience is asked for, jose
-- opens what it encodes and the cache keeps what it is given, any request that carries the token
-- within a hundred days is authenticated as the subject. The subject's claim is none of those that
-- jose looks into and none that the command takes by position, and the claims that are required are
-- among the standard ones.
pub write_token-authenticate :
    {C : Type 0} (settings : Settings) (jose : Jose) (encoder : Encoder) (cache : KeyCache C)
    (provider : Provider) (secrets : Secrets) (loads : Loads) (start : StartSettings)
    (subject : String) (now at : ℕ) (c : C)
    → RoundTrip jose encoder at
        (payload encoder settings.subject_claim subject now default_timeout start.main_domain)
        (secrets.text_key start.secret_key)
        (secret_kid secrets start.secret_key)
    → Keeps cache
    → start.add_secret_key ≡ true
    → audience settings.aud ≡ none
    → IsOther settings.subject_claim reserved_names
    → IsOther settings.subject_claim taken_names
    → HasAll settings.required_claims
        (standard_claims encoder now start.main_domain default_timeout)
    → now ≤ at
    → at ≤ now + default_timeout
    → (token : String) × (claims : Claims) × (write_token encoder secrets loads
          settings.subject_claim now
          (token_arguments secrets start subject)
        ≡ some token)
      × ((request : Credentials)
          → get_token settings request ≡ gives (some token)
          → authenticate settings jose cache provider request (ready cache provider secrets start c)
            ≡ (gives (some (str subject, claims)), ready cache provider secrets start c))
unfolding authenticate
write_token-authenticate {C} settings jose encoder cache provider secrets loads start subject now at
      c laws keeps adds open_ reserved taken required since until =
    let timeout = default_timeout in
    let claim = settings.subject_claim in
    let issuer = start.main_domain in
    let key = secrets.text_key start.secret_key in
    let kid = secret_kid secrets start.secret_key in
    let c' = ready cache provider secrets start c in
    let sent = payload encoder claim subject now timeout issuer in
    let claims = read_claims laws.read sent in
    let token = encoder.encode sent key "HS256" kid in
    let opened : jose.decode token key issuer (audience settings.aud) ≡ gives claims =
      ap (jose.decode token key issuer) open_
      ∙ payload-opened claim subject now timeout issuer laws reserved since until in
    let decoded : decode settings jose cache provider token c' ≡ (gives claims, c') =
      decode-gives settings jose cache provider token kid issuer key claims c' c' laws.named
        (ready-get_key cache provider secrets start c keeps adds) opened
        (payload-HasAll claim subject now timeout issuer laws settings.required_claims required) in
    let user = payload-subject claim subject now timeout issuer laws in
    (
      token,
      claims,
      write_token-payload encoder secrets loads start claim subject now taken,
      λ request found.
          let processed =
            process-token settings jose cache provider request token claims c' c' laws.filled found
              decoded in
          ap (λ (x : Attempt (Option Claims) × C). ((x.0 then_ identified settings), x.1)) processed
          ∙ ap (λ x. (x, c')) (identified-some settings claims (str subject) user),
    )
