-- ===== src/Tests/Pilots.antt =====
-- A history of requests to the routes of the pilots.
use mathlib.Core.List.{List, [], ◌∷◌, Permᴰ}
use sta_generation_service.Prelude.{String, true, none, some, ◌≡◌, refl}
use sta_generation_service.Errors.{ok, err, integrity_error}
use sta_generation_service.Models.{Pilot, PilotData}
use sta_generation_service.CachedProperties.{AskStore}
use sta_generation_service.Pilots.{
  Service, Site, Call, create, update, cache, delete, unique_names, new_pilot, reply_with,
  no_content, serve,
}
use sta_generation_service.Pilots.Invariant.{IsConsistent}
use sta_generation_service.Pilots.Ideal.{Ideal, Follows, view, replies}
use sta_generation_service.Pilots.Ideal.Refinement.{serve-Follows}
use sta_generation_service.Pilots.Ideal.Orders.{replies-perm}
use sta_generation_service.Text.{◌<>◌}
use sta_generation_service.Apps.{Mount, mounts, generate_pilot_apps}
use sta_generation_service.Apps.Paths.{find_mount}
use sta_generation_service.Tests.Routes.{listing, made_routes}
use sta_generation_service.Tests.{farm}

abbrev pub site : Site
site = record { debug = true; netloc = "sta" }

abbrev pub always : AskStore
always endpoint query = ok true

abbrev named : String → PilotData
named name = record {
  name = name;
  description = some "new";
  custom_endpoint = none;
  graphs = "http://graph/2" ∷ [];
}

abbrev pub cached_farm : Pilot
cached_farm = record farm { cached_properties = some 3 }

abbrev pub one_pilot : Service
one_pilot = record { table = cached_farm ∷ []; mounted = cached_farm ∷ [] }

pub one_pilot-IsConsistent : IsConsistent one_pilot
unfolding unique_names
one_pilot-IsConsistent = record { unique = refl; reloaded = refl }

-- The second name is taken, so the third request raises.
abbrev history : List Call
history = create (named "mill") ∷ cache "mill" ∷ update "mill" (named "farm") ∷ delete "farm" ∷ []

-- The answer in the middle is the one that raises.
test_replies :
    replies site always
      (create (named "mill") ∷ update "mill" (named "farm") ∷ delete "farm" ∷ [])
      one_pilot
    ≡ ok (reply_with site 200 (new_pilot (named "mill")))
      ∷ err integrity_error
      ∷ ok (record { status = 204; body = no_content })
      ∷ []
unfolding replies new_pilot
test_replies = refl

abbrev after_history : List Mount
unfolding serve
after_history = mounts made_routes (serve site always history one_pilot).mounted

serve-Follows_example :
    (m : Ideal) × Follows site always
      (view (cached_farm ∷ []))
      history
      (replies site always history one_pilot)
      m
    × ((name : String) → find_mount ("/" <> (name <> "/api/v1.0")) after_history ≡ m name)
unfolding serve generate_pilot_apps
serve-Follows_example =
    serve-Follows site always listing history one_pilot {mounted = after_history}
      one_pilot-IsConsistent refl

abbrev pub mill : Pilot
mill = record farm { name = "mill" }

abbrev two_pilots : Service
two_pilots = record { table = farm ∷ mill ∷ []; mounted = farm ∷ mill ∷ [] }

abbrev turned : Service
turned = record { table = mill ∷ farm ∷ []; mounted = mill ∷ farm ∷ [] }

two_pilots-IsConsistent : IsConsistent two_pilots
unfolding unique_names
two_pilots-IsConsistent = record { unique = refl; reloaded = refl }

turned-IsConsistent : IsConsistent turned
unfolding unique_names
turned-IsConsistent = record { unique = refl; reloaded = refl }

replies-perm_example : replies site always history two_pilots ≡ replies site always history turned
replies-perm_example =
    replies-perm site always history two_pilots turned two_pilots-IsConsistent turned-IsConsistent
      (refl, (refl, (refl, (refl, tt)))) (Permᴰ.swap refl refl)
