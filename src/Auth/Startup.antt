-- ===== src/Auth/Startup.antt =====
-- The keys that are in the store from the start: src/common/auth/__init__.py, and `ready` of
-- src/common/apps.py.
pub mod Sound
use mathlib.Core.List.{List, [], ◌∷◌}
use sta_generation_service.Prelude.{String, Bool, Option, none, some, if◌then◌else◌}
use sta_generation_service.Text.{take_chars}
use sta_generation_service.Dict.{Dict}
use sta_generation_service.Auth.Keys.{Key, KeyCache, Provider, add, add_keys}
use sta_generation_service.Auth.Tokens.{Attempt, gives, key_error, ◌then_◌}

-- The settings that are read at the start. A key set has no keys where it lacks the field "keys".
pub record StartSettings : Type 0 where
  pub auth_keys : Dict (Option (List Key))
  pub add_secret_key : Bool
  pub secret_key : String
  pub main_domain : String

-- hashlib.sha512(s.encode()).hexdigest(), and a text as a key.
pub record Secrets : Type 0 where
  pub hexdigest : String → String
  pub text_key : String → Key

-- The key ID of the secret: the first 40 digits.
unfoldable pub secret_kid : Secrets → String → String
unfolding take_chars
secret_kid secrets secret = take_chars 40 (secrets.hexdigest secret)

module _ {C : Type 0} (cache : KeyCache C) (provider : Provider) where
  unfoldable pub add_static_keys : Dict (Option (List Key)) → C → Attempt C
  unfolding add_keys
  add_static_keys [] c = gives c
  add_static_keys ((issuer, none) ∷ sets) c = key_error
  add_static_keys ((issuer, some keys) ∷ sets) c =
      add_static_keys sets (add_keys cache provider issuer keys none c).1

  -- CommonConfig.ready
  unfoldable pub ready : Secrets → StartSettings → C → C
  unfolding add secret_kid
  ready secrets settings c =
      if settings.add_secret_key
      then add cache provider (secret_kid secrets settings.secret_key) settings.main_domain
          (secrets.text_key settings.secret_key) none c
      else c

  -- The import of common.auth, then `ready`.
  unfoldable pub start : Secrets → StartSettings → C → Attempt C
  unfolding add_static_keys ready
  start secrets settings c =
      add_static_keys settings.auth_keys c then_ λ c'. gives (ready secrets settings c')
