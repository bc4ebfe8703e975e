-- ===== src/Auth/Requests/Guard.antt =====
-- A view behind `token_required` sees verified claims only, and claims are found once for a request.
use sta_generation_service.Prelude.{
  String, true, Option, none, some, ◌≡◌, refl, sym, ap, ◌∙◌, arith, Bool-cases, inl, inr,
}
use sta_generation_service.Auth.Keys.{KeyCache, Provider}
use sta_generation_service.Auth.Tokens.{
  Attempt, gives, value_error, key_error, Settings, Claims, Jose, ◌then_◌, get_token, process,
}
use sta_generation_service.Auth.Tokens.Claims.{Verified, then-gives}
use sta_generation_service.Auth.Tokens.Users.{process-gives}
use sta_generation_service.Auth.Requests.{
  Incoming, message, viewed, View, remember, has_claims, claims_from, get_claims, guarded,
  token_required,
}

module _ {C : Type 0} (request request' : Incoming) (c' : C) where
  remember-kept :
      (m : Attempt (Option Claims) × C) {claims : Option Claims}
      → remember request m ≡ (gives claims, request', c')
      → request'.cached_claims ≡ some claims
  unfolding remember
  remember-kept (gives found, d) h =
      let e : gives found ≡ gives _ = ap (λ x. x.0) h in
      ap (λ x. x.1.cached_claims) (sym h) ∙ ap some (ground arith)
  remember-kept (value_error text, d) h =
      let e : gives none ≡ gives _ = ap (λ x. x.0) h in
      ap (λ x. x.1.cached_claims) (sym h) ∙ ap some (ground arith)
  remember-kept (key_error, d) {claims} h =
      let bad : key_error ≡ gives claims = ap (λ x. x.0) h in absurd (cc)

module _ {C : Type 0} (settings : Settings) (jose : Jose) (cache : KeyCache C)
    (provider : Provider) where
  claims_from-kept :
      (o : Option (Option Claims)) (request request' : Incoming) (c c' : C) (claims : Option Claims)
      → request.cached_claims ≡ o
      → claims_from settings jose cache provider o request c ≡ (gives claims, request', c')
      → request'.cached_claims ≡ some claims
  unfolding claims_from
  claims_from-kept none request request' c c' claims fresh h =
      remember-kept request request' c' (process settings jose cache provider request.credentials c)
        h
  claims_from-kept (some old) request request' c c' claims cached h =
      let e : gives old ≡ gives claims = ap (λ x. x.0) h in
      let kept : request ≡ request' = ap (λ x. x.1) h in
      ap (λ (q : Incoming). q.cached_claims) (sym kept) ∙ cached ∙ ap some (ground arith)

-- Once the claims of a request are found they are found again, whatever became of the store since, and
-- neither the request nor the store changes.
get_claims-again :
    {C : Type 0} (settings : Settings) (jose : Jose) (cache : KeyCache C) (provider : Provider)
    (request request' : Incoming) (c c' : C) (claims : Option Claims)
    → get_claims settings jose cache provider request c ≡ (gives claims, request', c')
    → (d : C) → get_claims settings jose cache provider request' d ≡ (gives claims, request', d)
unfolding get_claims claims_from
get_claims-again settings jose cache provider request request' c c' claims h d =
    ap (λ o. claims_from settings jose cache provider o request' d)
      (claims_from-kept settings jose cache provider request.cached_claims request request' c c'
        claims refl h)

module _ {C : Type 0} {R : Type 0} (view : View C R) (request request' : Incoming) (c' : C)
    (r : R) where
  -- What a guarded view saw.
  abbrev Seen : Option Claims → Incoming → C → Type 0
  Seen claims kept d = (has_claims claims ≡ true) × (view kept d ≡ (gives r, request', c'))

  guarded-viewed :
      (claims : Option Claims) (kept : Incoming) (d : C)
      → guarded view (gives claims, kept, d) ≡ (gives (viewed r), request', c')
      → Seen claims kept d
  unfolding guarded
  guarded-viewed claims kept d h = elim (Bool-cases (has_claims claims)) [
    | inl on ↦
        let seen = view kept d in
        let answered : ((seen.0 then_ λ x. gives (viewed x)), seen.1, seen.2)
            ≡ (gives (viewed r), request', c') =
          rw (guarded, on) at h in
        let (x, got, same) = then-gives seen.0 (λ x. gives (viewed x)) (ap (λ a. a.0) answered) in
        let e : x ≡ r = ground arith in
        let whole : seen.0 ≡ gives r = got ∙ ap gives e in
        (on, λ i. (whole i, (answered i).1, (answered i).2))
    | inr off ↦
        let refused : (gives (message 401 "Missing or invalid authentication token."), kept, d)
            ≡ (gives (viewed r), request', c') =
          rw (guarded, off) at h in
        let bad : gives (message 401 "Missing or invalid authentication token.")
            ≡ gives (viewed r) =
          ap (λ a. a.0) refused in
        absurd (cc)
  ]

  -- From the outcome of `process` on: the view saw the claims that it gave.
  remember-viewed :
      (m : Attempt (Option Claims) × C)
      → guarded view (remember request m) ≡ (gives (viewed r), request', c')
      → (claims : Claims) × (m.0 ≡ gives (some claims))
        × (view (record request { cached_claims = some (some claims) }) m.1
            ≡ (gives r, request', c'))
  unfolding remember guarded
  remember-viewed (gives none, d) h = let (bad, _) = guarded-viewed none _ d h in absurd (cc)
  remember-viewed (gives (some claims), d) h =
      let (_, seen) = guarded-viewed (some claims) _ d h in (claims, refl, seen)
  remember-viewed (value_error text, d) h = let (bad, _) = guarded-viewed none _ d h in absurd (cc)
  remember-viewed (key_error, d) h =
      let bad : key_error ≡ gives (viewed r) = ap (λ a. a.0) h in absurd (cc)

-- A view behind `token_required` runs for a new request only with a token of the request that is
-- verified, and it sees the claims of this token in the request; what it answers is the answer.
pub token_required-Verified :
    {C R : Type 0} (settings : Settings) (jose : Jose) (cache : KeyCache C) (provider : Provider)
    (view : View C R) (request request' : Incoming) (c c' : C) (r : R)
    → request.cached_claims ≡ none
    → token_required settings jose cache provider view request c ≡ (gives (viewed r), request', c')
    → (claims : Claims) × (d : C) × (view (record request { cached_claims = some (some claims) }) d
        ≡ (gives r, request', c'))
      × ((token : String) × (get_token settings request.credentials ≡ gives (some token))
          × Verified settings jose cache provider token claims c d)
unfolding token_required get_claims claims_from
token_required-Verified settings jose cache provider view request request' c c' r fresh h =
    let asked = process settings jose cache provider request.credentials c in
    let known =
      ap (λ o. guarded view (claims_from settings jose cache provider o request c)) (sym fresh)
      ∙ h in
    let (claims, found, seen) = remember-viewed view request request' c' r asked known in
    (
      claims,
      asked.1,
      seen,
      process-gives settings jose cache provider request.credentials claims c asked.1
          (λ i. (found i, asked.1)),
    )
