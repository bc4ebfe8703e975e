-- ===== src/Tests/Auth.antt =====
-- A store of keys over a dict, and a token that it verifies.
use Prim.Native.String.{[], ◌∷◌}
use mathlib.Core.List.{[], ◌∷◌}
use text.Mathlib.Text.{◌==◌}
use sta_generation_service.Prelude.{
  String, true, false, none, some, ◌≡◌, ◌⊎◌, inl, inr, refl, sym, ◌∙◌, eq_iff, Bool-cases, arith,
  if◌then◌else◌,
}
use sta_generation_service.Dict.{Dict, lookup, insert}
use sta_generation_service.Dict.Laws.{lookup-insert}
use sta_generation_service.Sparql.Terms.{str}
use sta_generation_service.Auth.Keys.{Key, KeyCache, Provider, active_provider}
use sta_generation_service.Auth.Keys.Sound.{Honest, Sound}
use sta_generation_service.Auth.Tokens.{
  gives, Settings, Claims, Credentials, missing, Jose, get_token, authenticate,
}
use sta_generation_service.Auth.Tokens.Claims.{Verified}
use sta_generation_service.Auth.Tokens.Users.{authenticate-Verified}

abbrev pub dict_cache : KeyCache (Dict (String × Key))
dict_cache = record {
  get = λ c name. lookup name c;
  set = λ c name entry timeout. insert name entry c;
}

pub dict_cache-Honest : Honest dict_cache
dict_cache-Honest = record {
  only_set = λ c name asked entry found timeout h.
      split name asked entry found c (sym (lookup-insert name asked entry c) ∙ h);
}
  where
    split :
        (name asked : String) (entry found : String × Key) (c : Dict (String × Key))
        → (if name == asked then some entry else lookup asked c) ≡ some found
        → ((asked ≡ name) × (found ≡ entry)) ⊎ (lookup asked c ≡ some found)
    split name asked entry found c h = elim (Bool-cases (name == asked)) [
      | inl same ↦
          let e : some entry ≡ some found = rw same at h in
          inl (sym ((eq_iff name asked).0 same), ground arith)
      | inr other ↦ inr (rw other at h)
    ]

abbrev pub key_one : Key
key_one = record { is_dict = true; kid = some "one"; number = 1 }

abbrev pub op : Provider
op = record {
  openid_provider = some "https://op";
  jwks_uri = λ url. some "https://op/keys";
  published_keys = λ url. some (record { is_dict = false; kid = none; number = 0 } ∷ key_one ∷ []);
  constructs = λ key. true;
  keystore_timeout = some 86400;
}

abbrev pub TrustsOp : String → Type 0
TrustsOp issuer = issuer ≡ "https://op"

abbrev pub NoneGiven : String → String × Key → Type 0
NoneGiven kid entry = ⊥

pub empty-Sound : Sound dict_cache dict_cache-Honest op TrustsOp NoneGiven []
unfolding lookup
empty-Sound kid entry bad = absurd (cc)

pub active-TrustsOp : (p : String) → active_provider (some "https://op") ≡ some p → TrustsOp p
unfolding active_provider
active-TrustsOp p h = ground arith

abbrev pub settings : Settings
settings = record {
  header_prefix = "Bearer";
  required_claims = [];
  subject_claim = "sub";
  aud = none;
}

abbrev pub ada : Claims
ada = ("sub", str "ada") ∷ []

abbrev pub jose : Jose
jose = record {
  unverified_kid = λ token. gives (some "one");
  decode = λ token key issuer aud. gives ada;
}

abbrev pub bearer : Credentials
bearer = record { header = some "Bearer t0ken"; cookie = missing }

abbrev pub found_keys : Dict (String × Key)
found_keys = ("kid:https://op:one", ("https://op", key_one)) ∷ []

authenticate-Verified_example :
    (lookup "sub" ada ≡ some (str "ada"))
    × ((token : String) × (get_token settings bearer ≡ gives (some token))
        × Verified settings jose dict_cache op token ada [] found_keys)
unfolding authenticate insert
authenticate-Verified_example =
    authenticate-Verified settings jose dict_cache op bearer (str "ada") ada [] found_keys refl
