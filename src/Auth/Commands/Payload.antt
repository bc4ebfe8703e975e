-- ===== src/Auth/Commands/Payload.antt =====
-- The claims of a token of generate_auth_token: what `jose` promises of tokens, and that it opens these.
use mathlib.Core.List.{List, [], ◌∷◌, ◌++◌, map}
use text.Mathlib.Text.{◌==◌}
use sta_generation_service.Prelude.{
  ℕ, ◌+◌, ◌≤◌, String, true, false, Option, none, some, is_some, ◌≡◌, refl, ap, ◌∙◌, arith, All,
  Bool-cases, inl, inr, eq_refl,
}
use sta_generation_service.Dict.{lookup, insert}
use sta_generation_service.Dict.Laws.{lookup-insert}
use sta_generation_service.Sparql.Terms.{Value, str}
use sta_generation_service.Auth.Keys.{Key}
use sta_generation_service.Auth.Tokens.{gives, Settings, Claims, Jose, identified}
use sta_generation_service.Auth.Tokens.Claims.{HasAll}
use sta_generation_service.Auth.Commands.{Encoder, standard_claims}

-- The claim, where there is one, is a text.
abbrev pub IsText : String → Claims → Type 0
IsText claim claims = (v : Value) → lookup claim claims ≡ some v → (s : String) × (v ≡ str s)

-- The values of the claims, as a JSON document gives them back.
abbrev pub read_claims : (Value → Value) → Claims → Claims
read_claims read = map (λ claim. (claim.0, read claim.1))

-- What `jose` promises of the token that it encodes from this payload, at the time `at`: it is opened
-- for its issuer from "nbf" to "exp", where no audience is asked for and the claims that jose looks
-- into are well formed, and a text comes back as it was.
pub record RoundTrip (jose : Jose) (encoder : Encoder) (at : ℕ) (payload : Claims) (key : Key)
    (kid : String) : Type 0 where
  pub read : Value → Value
  pub read_text : (s : String) → read (str s) ≡ str s
  pub filled : (encoder.encode payload key "HS256" kid == "") ≡ false
  pub named : jose.unverified_kid (encoder.encode payload key "HS256" kid) ≡ gives (some kid)
  pub opened :
      (issuer : String) (issued begin end : ℕ)
      → lookup "iss" payload ≡ some (str issuer)
      → lookup "iat" payload ≡ some (encoder.moment issued)
      → lookup "nbf" payload ≡ some (encoder.moment begin)
      → begin ≤ at
      → lookup "exp" payload ≡ some (encoder.moment end)
      → at ≤ end
      → lookup "at_hash" payload ≡ none
      → IsText "sub" payload
      → IsText "jti" payload
      → jose.decode (encoder.encode payload key "HS256" kid) key issuer none
        ≡ gives (read_claims read payload)

-- The claims that `jose` itself looks into, but for the two that are texts.
abbrev pub reserved_names : List String
reserved_names = "iss" ∷ "iat" ∷ "nbf" ∷ "exp" ∷ "at_hash" ∷ []

-- A name that is not in the list.
abbrev pub IsOther : String → List String → Type 0
IsOther claim names = All (λ name. (claim == name) ≡ false) names

lookup-read :
    (read : Value → Value) (claim : String) (v : Value) (claims : Claims)
    → lookup claim claims ≡ some v
    → lookup claim (read_claims read claims) ≡ some (read v)
unfolding lookup
lookup-read read claim v [] h = cc
lookup-read read claim v ((k, w) ∷ claims) h = elim (Bool-cases (k == claim)) [
  | inl here ↦
      let e : some w ≡ some v = rw (lookup, here) at h in
      rw (lookup, here) (ap some (ap read (ground arith)))
  | inr there ↦ rw (lookup, there) (lookup-read read claim v claims (rw (lookup, there) at h))
]

some-is_some : {A : Type 0} (o : Option A) → is_some o ≡ true → (a : A) × (o ≡ some a)
some-is_some none h = cc
some-is_some (some a) h = (a, refl)

read-is_some :
    (read : Value → Value) (name : String) (claims : Claims)
    → is_some (lookup name claims) ≡ true
    → is_some (lookup name (read_claims read claims)) ≡ true
read-is_some read name claims h =
    let (v, found) = some-is_some (lookup name claims) h in
    ap is_some (lookup-read read name v claims found)

pub identified-some :
    (settings : Settings) (claims : Claims) (user : Value)
    → lookup settings.subject_claim claims ≡ some user
    → identified settings (some claims) ≡ gives (some (user, claims))
unfolding identified lookup
identified-some settings [] user h = cc
identified-some settings (claim ∷ claims) user h = rw (identified, h) refl

module _ (claim : String) (v : Value) (claims : Claims) where
  insert-same : lookup claim (insert claim v claims) ≡ some v
  insert-same = rw (lookup-insert claim claim v claims, eq_refl claim) refl

  insert-other :
      (name : String)
      → (claim == name) ≡ false
      → lookup name (insert claim v claims) ≡ lookup name claims
  insert-other name other = rw (lookup-insert claim name v claims, other) refl

  insert-is_some :
      (name : String)
      → is_some (lookup name claims) ≡ true
      → is_some (lookup name (insert claim v claims)) ≡ true
  insert-is_some name there = elim (Bool-cases (claim == name)) [
    | inl same ↦ rw (lookup-insert claim name v claims, same) refl
    | inr other ↦ rw (lookup-insert claim name v claims, other) there
  ]

  -- A claim of the old ones is a text if it is one of the new ones, and the new value is a text.
  insert-IsText :
      (s name : String)
      → v ≡ str s
      → lookup name claims ≡ none
      → IsText name (insert claim v claims)
  insert-IsText s name text free w h = elim (Bool-cases (claim == name)) [
    | inl same ↦
        let e : some v ≡ some w = rw (lookup-insert claim name v claims, same) at h in
        (s, (ground arith))
    | inr other ↦
        let e : lookup name claims ≡ some w = rw (lookup-insert claim name v claims, other) at h in
        absurd (cc)
  ]

-- The claims of a token of the command for a subject and no others.
unfoldable pub payload :
    Encoder → (claim subject : String) → (now timeout : ℕ) → (issuer : String) → Claims
unfolding insert standard_claims
payload encoder claim subject now timeout issuer =
    insert claim (str subject) (standard_claims encoder now issuer timeout)

module _ {jose : Jose} {encoder : Encoder} {at : ℕ} (claim subject : String) (now timeout : ℕ)
    (issuer : String) {key : Key} {kid : String}
    (laws : RoundTrip jose encoder at
      (payload encoder claim subject now timeout issuer)
      key
      kid) where
  -- Where `at` is within the token's time and the subject's claim is none of jose's own, jose opens it.
  pub payload-opened :
      IsOther claim reserved_names
      → now ≤ at
      → at ≤ now + timeout
      → jose.decode
          (encoder.encode (payload encoder claim subject now timeout issuer) key "HS256" kid)
          key
          issuer
          none
        ≡ gives (read_claims laws.read (payload encoder claim subject now timeout issuer))
  unfolding lookup standard_claims payload
  payload-opened (iss, (iat, (nbf, (exp, (hash, _))))) since until =
      let old = standard_claims encoder now issuer timeout in
      let new = insert-other claim (str subject) old in
      laws.opened issuer now now (now + timeout) (new "iss" iss) (new "iat" iat) (new "nbf" nbf)
        since (new "exp" exp) until (new "at_hash" hash)
        (insert-IsText claim (str subject) old subject "sub" refl refl)
        (insert-IsText claim (str subject) old subject "jti" refl refl)

  -- The claims that are required among the standard ones, and the subject's, are there.
  pub payload-HasAll :
      (required : List String)
      → HasAll required (standard_claims encoder now issuer timeout)
      → HasAll
          (required ++ claim ∷ [])
          (read_claims laws.read (payload encoder claim subject now timeout issuer))
  unfolding payload
  payload-HasAll [] all = (
    read-is_some laws.read claim _
        (ap is_some (insert-same claim (str subject) (standard_claims encoder now issuer timeout))),
    tt,
  )
  payload-HasAll (name ∷ required) (here, later) = (
    read-is_some laws.read name _ (insert-is_some claim (str subject) _ name here),
    payload-HasAll required later,
  )

  pub payload-subject :
      lookup claim (read_claims laws.read (payload encoder claim subject now timeout issuer))
      ≡ some (str subject)
  unfolding payload
  payload-subject =
      lookup-read laws.read claim (str subject) _
        (insert-same claim (str subject) (standard_claims encoder now issuer timeout))
      ∙ ap some (laws.read_text subject)
