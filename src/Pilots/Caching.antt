-- ===== src/Pilots/Caching.antt =====
-- From POST /pilots/cache/{name} to the code by which a handler of the pilot picks its query: what the
-- store answered then is what the code asks for now.
use Prim.Native.String.{[], ◌∷◌}
use mathlib.Core.List.{List, [], ◌∷◌}
use sta_generation_service.Prelude.{
  ℕ, ◌==◌, String, some, if◌then◌else◌, ◌≡◌, refl, sym, ap, ◌∙◌, arith, All, Bool-cases, ==_iff,
  Option-cases, inl, inr, eq_refl,
}
use sta_generation_service.Errors.{Result, ok, err}
use sta_generation_service.Text.{◌<>◌}
use sta_generation_service.Models.{
  Pilot, Resource, observations, datastreams, features_of_interest, historical_locations, locations,
  observed_properties, sensors, things,
}
use sta_generation_service.CachedProperties.{AskStore, get_integer_code}
use sta_generation_service.CachedProperties.Bits.{Answers, bit_of, digit, get_integer_code-digits}
use sta_generation_service.Sparql.Codes.{choose_code}
use sta_generation_service.Sparql.Codes.Choice.{Agree, choose_code-IsFirst}
use sta_generation_service.Sparql.Handler.{
  Handler, Request, Select, QueryFiles, make_handler, extend_graphs,
}
use sta_generation_service.Sparql.Handler.Aliasing.{make_handler-pilot}
use sta_generation_service.Apps.{Listing, Mount, generate_pilot_apps}
use sta_generation_service.Apps.Paths.{find_mount, find_mount-generate}
use sta_generation_service.Pilots.{Service, Site, Reply, cache, find_pilot, set_cached, handle}
use sta_generation_service.Pilots.Invariant.{IsConsistent, handle-IsConsistent}
use sta_generation_service.Pilots.Lookup.{cached_of}
use sta_generation_service.Pilots.Ideal.{Ideal, view, store_at, answer}
use sta_generation_service.Pilots.Ideal.Refinement.{handle-Agrees}

module _ {ask : AskStore} {p : Pilot} {n : ℕ} (a : Answers ask p n) where
  -- The digit that a code is to have at a position: the answer to the question of this position, or
  -- for the positions of an observation collection and above 6 the digit of the cached number.
  abbrev pub wanted : ℕ → ℕ
  wanted pos =
      if pos == 4
      then bit_of a.normal
      else if pos == 5
      then bit_of a.wgs
      else if pos == 6
      then bit_of a.feature
      else digit n pos

  wanted-digit :
      (pos : ℕ)
      → (digit n 4 ≡ bit_of a.normal) × (digit n 5 ≡ bit_of a.wgs) × (digit n 6 ≡ bit_of a.feature)
      → digit n pos ≡ wanted pos
  wanted-digit pos (normal, wgs, feature) = elim (Bool-cases (pos == 4)) [
    | inl four ↦ rw four (ap (digit n) ((==_iff pos 4).0 four) ∙ normal)
    | inr other ↦ rw other (elim (Bool-cases (pos == 5)) [
      | inl five ↦ rw five (ap (digit n) ((==_iff pos 5).0 five) ∙ wgs)
      | inr other' ↦ rw other' (elim (Bool-cases (pos == 6)) [
        | inl six ↦ rw six (ap (digit n) ((==_iff pos 6).0 six) ∙ feature)
        | inr none_of_them ↦ rw none_of_them refl
      ])
    ])
  ]

  wanted-Agree :
      (code : ℕ) (bits : List ℕ)
      → (digit n 4 ≡ bit_of a.normal) × (digit n 5 ≡ bit_of a.wgs) × (digit n 6 ≡ bit_of a.feature)
      → Agree bits code n
      → All (λ pos. digit code pos ≡ wanted pos) bits
  wanted-Agree code [] digits agree = tt
  wanted-Agree code (pos ∷ bits) digits (here, later) =
      (here ∙ wanted-digit pos digits, wanted-Agree code bits digits later)

-- A handler reads the number of its pilot.
cached-extend_graphs :
    (resource : Resource) (p : Pilot)
    → (extend_graphs resource p).cached_properties ≡ p.cached_properties
unfolding extend_graphs
cached-extend_graphs observations p = refl
cached-extend_graphs datastreams p = refl
cached-extend_graphs features_of_interest p = refl
cached-extend_graphs historical_locations p = refl
cached-extend_graphs locations p = refl
cached-extend_graphs observed_properties p = refl
cached-extend_graphs sensors p = refl
cached-extend_graphs things p = refl

-- A successful request stored the number that was computed for the row.
stored :
    (name : String) (p : Pilot) (code : Result ℕ) (m : Ideal) {reply : Reply}
    → (store_at name p code m).0 ≡ ok reply
    → (n : ℕ) × (code ≡ ok n) × ((store_at name p code m).1 name ≡ some (set_cached n p))
unfolding store_at
stored name p (ok n) m h = (n, refl, rw (eq_refl name))
stored name p (err e) m h = absurd (cc)

module _ (site : Site) (ask : AskStore) (name : String) (s s' : Service) (reply : Reply) where
  -- After a successful request the row is found with the number that the store's answers give.
  cache-stored :
      IsConsistent s
      → handle site ask (cache name) s ≡ (ok reply, s')
      → (p : Pilot) × (n : ℕ) × (find_pilot name s.table ≡ some p)
        × (get_integer_code ask p ≡ ok n)
        × (find_pilot name s'.mounted ≡ some (set_cached n p))
  unfolding answer
  cache-stored c h =
      let agrees = handle-Agrees site ask s c (cache name) in
      let reloaded = (handle-IsConsistent site ask s c (cache name)).reloaded in
      let promised = sym agrees.same_reply ∙ ap (λ o. o.0) h in
      let kept =
        ap (λ o. find_pilot name o.1.mounted) (sym h)
        ∙ ap (find_pilot name) reloaded
        ∙ ap (λ m. m name) agrees.same_view in
      elim (Option-cases (find_pilot name s.table)) [
        | inl missing ↦ let bad = rw (answer, missing) at promised in absurd (cc)
        | inr (p, found) ↦
            let (n, computed, put_) =
              stored name p (get_integer_code ask p) (view s.table)
                (rw (answer, found) at promised) in
            (p, n, found, computed, rw (answer, found) at kept ∙ put_)
      ]

-- POST /pilots/cache/{name} has succeeded, the applications could be generated, and a handler is made
-- for the pilot under the path of the name, with any resource, queries and request. Where a code is
-- chosen by important bits, each of its digits at an important position 4, 5 or 6 is the answer that
-- the store gave to the question of this position about the row of that name, and at any other
-- position it is the digit of the cached number.
pub cache-choose_code :
    (site : Site) (ask : AskStore) (name : String) (s s' : Service) (reply : Reply)
    (resources : Listing) {mounted : List Mount} (mounted_pilot : Pilot) (resource : Resource)
    (select : Select) (files : QueryFiles) (request : Request) {h : Handler} (bits : List ℕ)
    (cached code : ℕ)
    → IsConsistent s
    → handle site ask (cache name) s ≡ (ok reply, s')
    → generate_pilot_apps resources s'.mounted ≡ ok mounted
    → find_mount ("/" <> (name <> "/api/v1.0")) mounted ≡ some mounted_pilot
    → make_handler resource mounted_pilot select files request ≡ ok h
    → h.pilot.cached_properties ≡ some cached
    → h.important_bits ≡ some bits
    → choose_code h.important_bits cached h.integer_codes ≡ ok (some code)
    → (p : Pilot) × (find_pilot name s.table ≡ some p)
      × ((a : Answers ask p cached) × All (λ pos. digit code pos ≡ wanted a pos) bits)
unfolding set_cached
cache-choose_code site ask name s s' reply resources mounted_pilot resource select files request {h}
      bits cached code c handled generated at_path made known given picked =
    let (p, n, found, computed, there) = cache-stored site ask name s s' reply c handled in
    let same : some mounted_pilot ≡ some (set_cached n p) =
      sym at_path ∙ find_mount-generate resources s'.mounted name generated ∙ there in
    let held = make_handler-pilot resource mounted_pilot select files request made in
    let number : some cached ≡ some n =
      sym known
      ∙ ap (λ (q : Pilot). q.cached_properties) held
      ∙ cached-extend_graphs resource mounted_pilot
      ∙ ap cached_of same in
    let e : n ≡ cached = ground arith in
    let (a, (normal, wgs, feature, _), _, _) =
      get_integer_code-digits ask p cached (computed ∙ ap ok e) in
    let (i, _, first) = choose_code-IsFirst bits cached h.integer_codes code (rw given at picked) in
    (p, found, (a, wanted-Agree a code bits (normal, wgs, feature) first.1))
