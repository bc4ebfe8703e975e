-- ===== src/Auth/Tokens/Claims.antt =====
-- What the claims that a handler gives have passed.
use mathlib.Core.List.{List, [], ◌∷◌, ◌++◌}
use sta_generation_service.Prelude.{
  String, true, Option, none, some, is_some, ◌≡◌, inl, inr, refl, ap, ◌∙◌, arith, subst, All,
  Bool-cases,
}
use sta_generation_service.Dict.{lookup}
use sta_generation_service.Auth.Keys.{Key, KeyCache, Provider, get_key}
use sta_generation_service.Auth.Tokens.{
  Attempt, gives, value_error, key_error, ◌then_◌, Settings, Claims, Jose, validate_claims,
  audience, prefixed, known, key_for, get_decode_args, checked_claims, decode,
}

pub then-gives :
    {A B : Type 0} (m : Attempt A) (f : A → Attempt B) {b : B}
    → (m then_ f) ≡ gives b
    → (a : A) × (m ≡ gives a) × (f a ≡ gives b)
then-gives (gives a) f h = (a, refl, h)
then-gives (value_error message) f h = cc
then-gives key_error f h = cc

prefixed-gives :
    {A : Type 0} (text : String) (m : Attempt A) {a : A} → prefixed text m ≡ gives a → m ≡ gives a
unfolding prefixed
prefixed-gives text (gives a) h = h
prefixed-gives text (value_error message) h = cc
prefixed-gives text key_error h = cc

known-gives :
    (o : Option (String × Key)) {entry : String × Key} → known o ≡ gives entry → o ≡ some entry
unfolding known
known-gives none h = cc
known-gives (some e) {entry} h = ap some (ground arith)

-- Each claim of the list is there.
abbrev pub HasAll : List String → Claims → Type 0
HasAll required claims = All (λ claim. is_some (lookup claim claims) ≡ true) required

validate_claims-HasAll :
    (required : List String) (claims : Claims) {found : Claims}
    → validate_claims required claims ≡ gives found
    → (claims ≡ found) × HasAll required claims
unfolding validate_claims
validate_claims-HasAll [] claims h = (ground arith, tt)
validate_claims-HasAll (claim ∷ required) claims h =
    elim (Bool-cases (is_some (lookup claim claims))) [
      | inl there ↦
          let (same, all) =
            validate_claims-HasAll required claims (rw (validate_claims, there) at h) in
          (same, (there, all))
      | inr absent ↦ let bad = rw (validate_claims, absent) at h in absurd (cc)
    ]

-- What stands behind claims: a key of the store for the kid of the token's header, under which the
-- token decodes to them, and all that is required.
pub record Verified {C : Type 0} (settings : Settings) (jose : Jose) (cache : KeyCache C)
    (provider : Provider) (token : String) (claims : Claims) (c c' : C) : Type 0 where
  pub kid : String
  pub issuer : String
  pub key : Key
  pub named : jose.unverified_kid token ≡ gives (some kid)
  pub stored : get_key cache provider kid c ≡ (some (issuer, key), c')
  pub decoded : jose.decode token key issuer (audience settings.aud) ≡ gives claims
  pub complete : HasAll (settings.required_claims ++ settings.subject_claim ∷ []) claims

module _ {C : Type 0} (settings : Settings) (jose : Jose) (cache : KeyCache C)
    (provider : Provider) where
  key_for-gives :
      (kid : Option String) (c : C) {entry : String × Key} {c' : C}
      → key_for settings jose cache provider kid c ≡ (gives entry, c')
      → (k : String) × (kid ≡ some k) × (get_key cache provider k c ≡ (some entry, c'))
  unfolding key_for
  key_for-gives none c {entry} h =
      let bad : value_error "Missing 'kid' attribute in token header." ≡ gives entry =
        ap (λ x. x.0) h in
      absurd (cc)
  key_for-gives (some k) c {entry} {c'} h =
      let a : (get_key cache provider k c).0 ≡ some entry = known-gives _ (ap (λ x. x.0) h) in
      let b : (get_key cache provider k c).1 ≡ c' = ap (λ x. x.1) h in (k, refl, λ i. (a i, b i))

  get_decode_args-gives :
      (token : String) (c : C) {entry : String × Key} {c' : C}
      → get_decode_args settings jose cache provider token c ≡ (gives entry, c')
      → (k : String) × (jose.unverified_kid token ≡ gives (some k))
        × (get_key cache provider k c ≡ (some entry, c'))
  unfolding get_decode_args
  get_decode_args-gives token c {entry} {c'} h =
      go (prefixed "Error decoding token header: " (jose.unverified_kid token)) refl h
    where
      go :
          (m : Attempt (Option String))
          → prefixed "Error decoding token header: " (jose.unverified_kid token) ≡ m
          → elim m [
            | gives kid ↦ key_for settings jose cache provider kid c
            | value_error message ↦ (value_error message, c)
            | key_error ↦ (key_error, c)
          ]
            ≡ (gives entry, c')
          → (k : String) × (jose.unverified_kid token ≡ gives (some k))
            × (get_key cache provider k c ≡ (some entry, c'))
      go (gives kid) e h =
          let (k, same, found) = key_for-gives kid c h in
          (k, prefixed-gives _ _ e ∙ ap gives same, found)
      go (value_error message) e h =
          let bad : value_error message ≡ gives entry = ap (λ x. x.0) h in absurd (cc)
      go key_error e h = let bad : key_error ≡ gives entry = ap (λ x. x.0) h in absurd (cc)

-- A token that is decoded to claims names a kid in its header; the store gives a key and an issuer
-- for this kid, the token decodes to the claims under them, and the claims have the subject and all
-- that is required.
pub decode-Verified :
    {C : Type 0} (settings : Settings) (jose : Jose) (cache : KeyCache C) (provider : Provider)
    (token : String) (claims : Claims) (c c' : C)
    → decode settings jose cache provider token c ≡ (gives claims, c')
    → Verified settings jose cache provider token claims c c'
unfolding decode checked_claims
decode-Verified settings jose cache provider token claims c c' h =
    let args = get_decode_args settings jose cache provider token c in
    let required = settings.required_claims ++ settings.subject_claim ∷ [] in
    let after : args.1 ≡ c' = ap (λ x. x.1) h in
    let (entry, got, checked) =
      then-gives args.0 (checked_claims settings jose token) (ap (λ x. x.0) h) in
    let (kid, named, stored) =
      get_decode_args-gives settings jose cache provider token c (λ i. (got i, after i)) in
    let (found, decoded, valid) =
      then-gives
        (prefixed "Error decoding token: "
          (jose.decode token entry.1 entry.0 (audience settings.aud)))
        (validate_claims required) checked in
    let (same, all) = validate_claims-HasAll required found valid in
    record {
      kid = kid;
      issuer = entry.0;
      key = entry.1;
      named = named;
      stored = stored;
      decoded = prefixed-gives _ _ decoded ∙ ap gives same;
      complete = subst (HasAll required) same all;
    }
