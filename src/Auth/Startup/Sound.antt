-- ===== src/Auth/Startup/Sound.antt =====
-- The store is sound from the start.
use mathlib.Core.List.{List, [], ◌∷◌}
use sta_generation_service.Prelude.{
  String, Option, none, some, ◌≡◌, refl, inl, inr, subst, arith, All, Bool-cases,
}
use sta_generation_service.Dict.{Dict}
use sta_generation_service.Auth.Keys.{Key, KeyCache, Provider}
use sta_generation_service.Auth.Keys.Sound.{Honest, Sound, add-Sound, add_keys-Sound}
use sta_generation_service.Auth.Tokens.{gives}
use sta_generation_service.Auth.Tokens.Claims.{then-gives}
use sta_generation_service.Auth.Startup.{
  StartSettings, Secrets, secret_kid, add_static_keys, ready, start,
}

-- The one entry that `ready` gives: the secret, for its own key ID and the main domain.
abbrev pub IsSecret : Secrets → StartSettings → String → String × Key → Type 0
IsSecret secrets settings kid entry =
    (kid ≡ secret_kid secrets settings.secret_key)
    × (entry ≡ (settings.main_domain, secrets.text_key settings.secret_key))

module _ {C : Type 0} (cache : KeyCache C) (honest : Honest cache) (provider : Provider)
    (Trusts : String → Type 0) (Given : String → String × Key → Type 0) where
  add_static_keys-Sound :
      (sets : Dict (Option (List Key))) (c : C) {c' : C}
      → All (λ set. Trusts set.0) sets
      → Sound cache honest provider Trusts Given c
      → add_static_keys cache provider sets c ≡ gives c'
      → Sound cache honest provider Trusts Given c'
  unfolding add_static_keys
  add_static_keys-Sound [] c trust sound h =
      subst (Sound cache honest provider Trusts Given) (ground arith) sound
  add_static_keys-Sound ((issuer, none) ∷ sets) c trust sound h = cc
  add_static_keys-Sound ((issuer, some keys) ∷ sets) c (here, later) sound h =
      add_static_keys-Sound sets _ later
        (add_keys-Sound cache honest provider Trusts Given issuer keys none c here sound) h

-- Where the cache is honest and sound before the start and the issuers in the settings are trusted, it
-- is sound after a start that does not raise: besides keys of trusted issuers that the library
-- constructs it gives the secret only, for its own key ID and as a key of the main domain.
pub start-Sound :
    {C : Type 0} (cache : KeyCache C) (honest : Honest cache) (provider : Provider)
    (Trusts : String → Type 0) (secrets : Secrets) (settings : StartSettings) (c c' : C)
    → All (λ set. Trusts set.0) settings.auth_keys
    → Sound cache honest provider Trusts (IsSecret secrets settings) c
    → start cache provider secrets settings c ≡ gives c'
    → Sound cache honest provider Trusts (IsSecret secrets settings) c'
unfolding start ready
start-Sound {C} cache honest provider Trusts secrets settings c c' trust sound h =
    let Given = IsSecret secrets settings in
    let (d, static, same) = then-gives (add_static_keys cache provider settings.auth_keys c) _ h in
    let sound_d : Sound cache honest provider Trusts Given d =
      add_static_keys-Sound cache honest provider Trusts Given settings.auth_keys c trust sound
        static in
    let e : ready cache provider secrets settings d ≡ c' = ground arith in
    subst (Sound cache honest provider Trusts Given) e (secret_added d sound_d)
  where
    secret_added :
        (d : C)
        → Sound cache honest provider Trusts (IsSecret secrets settings) d
        → Sound cache honest provider Trusts
            (IsSecret secrets settings)
            (ready cache provider secrets settings d)
    secret_added d sound_d = elim (Bool-cases settings.add_secret_key) [
      | inl on ↦
          rw (ready, on)
            (add-Sound cache honest provider Trusts (IsSecret secrets settings)
              (secret_kid secrets settings.secret_key) settings.main_domain
              (secrets.text_key settings.secret_key) none d (inl (refl, refl)) sound_d)
      | inr off ↦ rw (ready, off) sound_d
    ]
