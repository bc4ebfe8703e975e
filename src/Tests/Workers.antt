-- ===== src/Tests/Workers.antt =====
-- Requests that share the store of keys.
use Prim.Native.String.{[], ◌∷◌}
use mathlib.Core.List.{List, [], ◌∷◌}
use sta_generation_service.Prelude.{ℕ, true, false, none, some, ◌≡◌, arith, All}
use sta_generation_service.Dict.{insert, lookup}
use sta_generation_service.Auth.Keys.{active_provider, get_key}
use sta_generation_service.Auth.Keys.Sound.{Sound}
use sta_generation_service.Auth.Keys.Workers.{
  Worker, asking, adding, answered, discovered, work_by, work_at, Turns, works, comes, stays, turns,
}
use sta_generation_service.Auth.Keys.Workers.Alone.{work-get_key}
use sta_generation_service.Auth.Keys.Workers.Shared.{Right, shared-Right}
use sta_generation_service.Auth.Keys.Workers.Bounded.{is_answered, sees, sees-answered}
use sta_generation_service.Tests.Auth.{
  dict_cache, dict_cache-Honest, op, key_one, found_keys, TrustsOp, NoneGiven, active-TrustsOp,
  empty-Sound,
}

work-get_key_example :
    (n : ℕ) × (work_by dict_cache op n (asking "one", [])
      ≡ (answered "one" (get_key dict_cache op "one" []).0, (get_key dict_cache op "one" []).1))
work-get_key_example = work-get_key dict_cache op "one" []

-- A second request comes while the first one adds keys, and finds no key: it asks the provider too.
abbrev two_requests : List Worker
two_requests =
    adding "one" "https://op" (record { is_dict = false; kid = none; number = 0 } ∷ key_one ∷ [])
    ∷ answered "one" (some ("https://op", key_one))
    ∷ []

two_work : Turns dict_cache op ([], []) (two_requests, found_keys)
unfolding work_at insert lookup discovered
two_work = turns (comes "one") (
    turns (works 0) (
      turns (comes "one") (
        turns (works 1)
          (turns (works 0) (turns (works 1) (turns (works 1) (turns (works 1) stays)))))))

shared-Right_example :
    All (Right dict_cache dict_cache-Honest op TrustsOp NoneGiven) two_requests
    × Sound dict_cache dict_cache-Honest op TrustsOp NoneGiven found_keys
shared-Right_example =
    shared-Right dict_cache dict_cache-Honest op TrustsOp NoneGiven active-TrustsOp two_requests []
      found_keys empty-Sound two_work

sees-answered_example :
    is_answered (sees dict_cache op ([] ∷ [] ∷ [] ∷ found_keys ∷ found_keys ∷ []) (asking "one"))
    ≡ true
unfolding discovered active_provider
sees-answered_example =
    sees-answered dict_cache op "one" ([] ∷ [] ∷ [] ∷ found_keys ∷ found_keys ∷ []) (omega arith)
