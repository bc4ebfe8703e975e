-- ===== src/Auth/Commands/KeySets.antt =====
-- A key set that generate_auth_key writes serves as AUTH_KEYS.
use mathlib.Core.List.{List, [], ◌∷◌, map}
use sta_generation_service.Prelude.{String, true, Option, none, some, if◌then◌else◌, ◌≡◌, refl, ◌∙◌}
use sta_generation_service.Dict.{Dict, lookup, insert}
use sta_generation_service.Dict.Laws.{lookup-insert}
use sta_generation_service.Auth.Keys.{
  Key, KeyCache, Provider, cache_key, kid_of, add, add_key, add_all, add_keys, get_key,
}
use sta_generation_service.Auth.Keys.Again.{get_key-hit}
use sta_generation_service.Auth.Startup.{add_static_keys}
use sta_generation_service.Auth.Tokens.{gives}
use sta_generation_service.Auth.Commands.{KeyArguments, KeyMaker, write_key}
use sta_generation_service.Auth.Commands.Accepted.{Keeps}

-- A key set as the start takes it, where `key` is what a JSON object is as a key.
abbrev pub read_sets :
    (Dict String → Key) → Dict (Dict (List (Dict String))) → Dict (Option (List Key))
read_sets key [] = []
read_sets key ((issuer, set) ∷ sets) =
    (issuer, elim (lookup "keys" set) [ none ↦ none | some keys ↦ some (map key keys) ])
    ∷ read_sets key sets

-- A JSON object is a dict, with its "kid".
abbrev pub IsJson : (Dict String → Key) → Type 0
IsJson key = (d : Dict String) → ((key d).is_dict ≡ true) × ((key d).kid ≡ lookup "kid" d)

kid_of-dict :
    (provider : Provider) (key : Key)
    → provider.constructs key ≡ true
    → key.is_dict ≡ true
    → kid_of provider key ≡ key.kid
unfolding kid_of
kid_of-dict provider key constructs dict = rw (kid_of, constructs, dict) refl

-- The start with one key of one issuer.
one_key :
    {C : Type 0} (cache : KeyCache C) (provider : Provider) (kid issuer : String) (made : Key)
    (c : C)
    → kid_of provider made ≡ some kid
    → add_static_keys cache provider ((issuer, some (made ∷ [])) ∷ []) c
      ≡ gives (cache.set c (cache_key provider kid) (issuer, made) none)
unfolding add_static_keys add_keys add_all add_key add
one_key cache provider kid issuer made c named = rw (add_key, named) refl

-- What generate_auth_key writes, given as AUTH_KEYS, is one key that the store gives for the key ID and
-- with the issuer of the command's arguments, whatever the secret is; the library constructs the key
-- and the cache keeps what it is given.
write_key-get_key :
    {C : Type 0} (cache : KeyCache C) (provider : Provider) (maker : KeyMaker)
    (arguments : KeyArguments) (key : Dict String → Key) (c : C)
    → Keeps cache
    → IsJson key
    → ((d : Dict String) → provider.constructs (key d) ≡ true)
    → (made : Key) × (c' : C) × (add_static_keys cache provider
          (read_sets key (write_key maker arguments))
          c
        ≡ gives c')
      × (get_key cache provider arguments.kid c' ≡ (some (arguments.issuer, made), c'))
unfolding write_key lookup
write_key-get_key cache provider maker arguments key c keeps json constructs =
    let secret = if arguments.random then maker.random_string 50 else arguments.secret in
    let d = insert "kid" arguments.kid (maker.hmac_dict secret) in
    let made = key d in
    let (dict, kid) = json d in
    let entry : String × Key = (arguments.issuer, made) in
    let place = cache_key provider arguments.kid in
    let c' = cache.set c place entry none in
    let named =
      kid_of-dict provider made (constructs d) dict
      ∙ kid
      ∙ lookup-insert "kid" "kid" arguments.kid (maker.hmac_dict secret) in
    (
      made,
      c',
      one_key cache provider arguments.kid arguments.issuer made c named,
      get_key-hit cache provider arguments.kid entry c' (keeps c place entry),
    )
