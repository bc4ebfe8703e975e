-- ===== src/Sparql/Handler/Aliasing.antt =====
-- `self.graphs` and `pilot.graphs` are one list: what the requests for Datastreams do to it.
use mathlib.Core.List.{List, [], ◌∷◌, ◌++◌, append_assoc, append-nil}
use sta_generation_service.Prelude.{ℕ, zero, suc, ◌+◌, String, ◌≡◌, refl, sym, ap, ◌∙◌, arith}
use sta_generation_service.Errors.{Result, ok, ◌>>=◌, >>=-eq-ok}
use sta_generation_service.Models.{
  Pilot, Resource, observations, datastreams, features_of_interest, historical_locations, locations,
  observed_properties, sensors, things,
}
use sta_generation_service.Sparql.Codes.{important_bits}
use sta_generation_service.Sparql.Handler.{
  Handler, Request, Select, QueryFiles, unit_graphs, extend_graphs, make_handler,
}

-- What one request makes a handler from, beside the pilot.
pub record Call : Type 0 where
  pub resource : Resource
  pub select : Select
  pub files : QueryFiles
  pub request : Request

-- The pilot object after a sequence of requests: each handler holds it, and leaves it as it is.
unfoldable pub after_calls : List Call → Pilot → Result Pilot
after_calls [] pilot = ok pilot
after_calls (c ∷ calls) pilot =
    make_handler c.resource pilot c.select c.files c.request >>= λ h. after_calls calls h.pilot

-- How many of the requests are for Datastreams.
abbrev is_datastreams : Resource → ℕ
is_datastreams datastreams = 1
is_datastreams _ = 0

abbrev pub datastreams_calls : List Call → ℕ
datastreams_calls [] = 0
datastreams_calls (c ∷ calls) = is_datastreams c.resource + datastreams_calls calls

abbrev pub copies : ℕ → List String → List String
copies zero graphs = []
copies (suc n) graphs = graphs ++ copies n graphs

pub make_handler-pilot :
    (resource : Resource) (pilot : Pilot) (select : Select) (files : QueryFiles) (request : Request)
    {h : Handler}
    → make_handler resource pilot select files request ≡ ok h
    → h.pilot ≡ extend_graphs resource pilot
unfolding make_handler
make_handler-pilot resource pilot select files request made =
    let (bits, _, same) = >>=-eq-ok (important_bits files.bits) _ made in ground arith

graphs-extend :
    (resource : Resource) (pilot : Pilot)
    → (extend_graphs resource pilot).graphs
      ≡ pilot.graphs ++ copies (is_datastreams resource) unit_graphs
unfolding extend_graphs
graphs-extend datastreams pilot = refl
graphs-extend observations pilot = sym (append-nil _)
graphs-extend features_of_interest pilot = sym (append-nil _)
graphs-extend historical_locations pilot = sym (append-nil _)
graphs-extend locations pilot = sym (append-nil _)
graphs-extend observed_properties pilot = sym (append-nil _)
graphs-extend sensors pilot = sym (append-nil _)
graphs-extend things pilot = sym (append-nil _)

copies-add :
    (m n : ℕ) (graphs : List String) → copies m graphs ++ copies n graphs ≡ copies (m + n) graphs
copies-add zero n graphs = let e : n ≡ 0 + n = omega arith in ap (λ k. copies k graphs) e
copies-add (suc m) n graphs =
    let e : suc (m + n) ≡ suc m + n = omega arith in
    append_assoc graphs (copies m graphs) (copies n graphs)
    ∙ ap (λ l. graphs ++ l) (copies-add m n graphs)
    ∙ ap (λ k. copies k graphs) e

-- After any sequence of requests that all get their handler, the pilot's graphs are those of
-- before, followed by the two graphs of the units once for each request for Datastreams.
pub graphs-after_calls :
    (calls : List Call) (pilot : Pilot) {p : Pilot}
    → after_calls calls pilot ≡ ok p
    → p.graphs ≡ pilot.graphs ++ copies (datastreams_calls calls) unit_graphs
unfolding after_calls
graphs-after_calls [] pilot {p} made =
    let e : p ≡ pilot = ground arith in ap (λ (q : Pilot). q.graphs) e ∙ sym (append-nil _)
graphs-after_calls (c ∷ calls) pilot {p} made =
    let (h, made_h, later) =
      >>=-eq-ok (make_handler c.resource pilot c.select c.files c.request) _ made in
    let held = make_handler-pilot c.resource pilot c.select c.files c.request made_h in
    graphs-after_calls calls h.pilot later
    ∙ ap (λ (q : Pilot). q.graphs ++ copies (datastreams_calls calls) unit_graphs) held
    ∙ ap (λ l. l ++ copies (datastreams_calls calls) unit_graphs) (graphs-extend c.resource pilot)
    ∙ append_assoc pilot.graphs (copies (is_datastreams c.resource) unit_graphs) _
    ∙ ap (λ l. pilot.graphs ++ l)
        (copies-add (is_datastreams c.resource) (datastreams_calls calls) unit_graphs)
