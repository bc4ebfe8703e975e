-- ===== src/Auth/Tokens/Users.antt =====
-- Who is authenticated.
use mathlib.Core.List.{[], ◌∷◌}
use text.Mathlib.Text.{◌==◌}
use sta_generation_service.Prelude.{
  String, Option, none, some, ◌≡◌, inl, inr, refl, sym, ap, ◌∙◌, arith, Bool-cases, Option-cases,
}
use sta_generation_service.Dict.{lookup}
use sta_generation_service.Sparql.Terms.{Value}
use sta_generation_service.Auth.Keys.{KeyCache, Provider}
use sta_generation_service.Auth.Tokens.{
  Attempt, gives, value_error, key_error, ◌then_◌, Settings, Claims, Credentials, Jose, get_token,
  decode, decode_found, process, identified, authenticate,
}
use sta_generation_service.Auth.Tokens.Claims.{Verified, then-gives, decode-Verified}

decode_found-gives :
    {C : Type 0} (settings : Settings) (jose : Jose) (cache : KeyCache C) (provider : Provider)
    (found : Option String) (claims : Claims) (c c' : C)
    → decode_found settings jose cache provider found c ≡ (gives (some claims), c')
    → (token : String) × (found ≡ some token)
      × Verified settings jose cache provider token claims c c'
unfolding decode_found
decode_found-gives settings jose cache provider none claims c c' h =
    let bad : gives none ≡ gives (some claims) = ap (λ x. x.0) h in absurd (cc)
decode_found-gives settings jose cache provider (some token) claims c c' h =
    elim (Bool-cases (token == "")) [
      | inl empty ↦
          let none_ : (gives none, c) ≡ (gives (some claims), c') = rw (decode_found, empty) at h in
          let bad : gives none ≡ gives (some claims) = ap (λ x. x.0) none_ in absurd (cc)
      | inr filled ↦
          let asked = decode settings jose cache provider token c in
          let kept : ((asked.0 then_ λ found. gives (some found)), asked.1)
              ≡ (gives (some claims), c') =
            rw (decode_found, filled) at h in
          let after : asked.1 ≡ c' = ap (λ x. x.1) kept in
          let (a, decoded, same) =
            then-gives asked.0 (λ found. gives (some found)) (ap (λ x. x.0) kept) in
          let e : a ≡ claims = ground arith in
          (
            token,
            refl,
            decode-Verified settings jose cache provider token claims c c'
                (λ i. ((decoded ∙ ap gives e) i, after i)),
          )
    ]

pub process-gives :
    {C : Type 0} (settings : Settings) (jose : Jose) (cache : KeyCache C) (provider : Provider)
    (request : Credentials) (claims : Claims) (c c' : C)
    → process settings jose cache provider request c ≡ (gives (some claims), c')
    → (token : String) × (get_token settings request ≡ gives (some token))
      × Verified settings jose cache provider token claims c c'
unfolding process
process-gives {C} settings jose cache provider request claims c c' h =
    go (get_token settings request) refl h
  where
    go :
        (m : Attempt (Option String))
        → get_token settings request ≡ m
        → elim m [
          | gives token ↦ decode_found settings jose cache provider token c
          | value_error message ↦ (value_error message, c)
          | key_error ↦ (key_error, c)
        ]
          ≡ (gives (some claims), c')
        → (token : String) × (get_token settings request ≡ gives (some token))
          × Verified settings jose cache provider token claims c c'
    go (gives found) e h =
        let (token, same, verified) =
          decode_found-gives settings jose cache provider found claims c c' h in
        (token, e ∙ ap gives same, verified)
    go (value_error message) e h =
        let bad : value_error message ≡ gives (some claims) = ap (λ x. x.0) h in absurd (cc)
    go key_error e h = let bad : key_error ≡ gives (some claims) = ap (λ x. x.0) h in absurd (cc)

identified-gives :
    (settings : Settings) (found : Option Claims) {user : Value} {claims : Claims}
    → identified settings found ≡ gives (some (user, claims))
    → (found ≡ some claims) × (lookup settings.subject_claim claims ≡ some user)
unfolding identified
identified-gives settings none h = cc
identified-gives settings (some []) h = cc
identified-gives settings (some (claim ∷ rest)) {user} {claims} h =
    elim (Option-cases (lookup settings.subject_claim (claim ∷ rest))) [
      | inl absent ↦ let bad = rw (identified, absent) at h in absurd (cc)
      | inr (user', there) ↦
          let same : gives (some (user', claim ∷ rest)) ≡ gives (some (user, claims)) =
            rw (identified, there) at h in
          let claims_ : claim ∷ rest ≡ claims = ground arith in
          let user_ : user' ≡ user = ground arith in
          (
            ap some claims_,
            ap (lookup settings.subject_claim) (sym claims_) ∙ there ∙ ap some user_,
          )
    ]

-- A user is authenticated only with the token that the getters find: its header names a kid, the key
-- store gives a key and an issuer for it, the token decodes under them to the claims, these have the
-- subject and all that is required, and the user is their subject.
pub authenticate-Verified :
    {C : Type 0} (settings : Settings) (jose : Jose) (cache : KeyCache C) (provider : Provider)
    (request : Credentials) (user : Value) (claims : Claims) (c c' : C)
    → authenticate settings jose cache provider request c ≡ (gives (some (user, claims)), c')
    → (lookup settings.subject_claim claims ≡ some user)
      × ((token : String) × (get_token settings request ≡ gives (some token))
          × Verified settings jose cache provider token claims c c')
unfolding authenticate identified
authenticate-Verified settings jose cache provider request user claims c c' h =
    let asked = process settings jose cache provider request c in
    let after : asked.1 ≡ c' = ap (λ x. x.1) h in
    let (found, processed, named) = then-gives asked.0 (identified settings) (ap (λ x. x.0) h) in
    let (same, subject) = identified-gives settings found named in
    (
      subject,
      process-gives settings jose cache provider request claims c c'
          (λ i. ((processed ∙ ap gives same) i, after i)),
    )
