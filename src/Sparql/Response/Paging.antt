-- ===== src/Sparql/Response/Paging.antt =====
-- Following the next links of a collection by what is written in them.
use Prim.Native.String.{◌∷◌}
use mathlib.Core.List.{List, [], ◌∷◌}
use sta_generation_service.Prelude.{
  ℕ, zero, suc, ◌+◌, ◌≤◌, ◌<◌, String, Option, none, some, leb, ltb, ◌&&◌, if◌then◌else◌, ◌≡◌,
}
use sta_generation_service.Errors.{Result, ok, err}
use sta_generation_service.Text.{◌<>◌, strip_prefix}
use sta_generation_service.Text.Number.{Run, read_digits, parse_nat}
use sta_generation_service.Sparql.Terms.{Response, entity, page}
use sta_generation_service.Sparql.Handler.{Request}
use sta_generation_service.Sparql.Response.{handle_results_properties}

-- What a server reads in a query string `?$top=t&$skip=s` after the address `url`.
pub record Window : Type 0 where
  pub top : ℕ
  pub skip : ℕ

read_skip : Run → Option Window
unfolding parse_nat strip_prefix
read_skip run = elim (strip_prefix "&$skip=" run.rest) [
  | none ↦ none
  | some digits ↦ elim (parse_nat digits) [
    | none ↦ none
    | some skip ↦ some (record { top = run.value; skip = skip })
  ]
]

unfoldable pub read_link : String → String → Option Window
unfolding read_skip strip_prefix read_digits
read_link url link = elim (strip_prefix (url <> "?$top=") link) [
  | none ↦ none
  | some rest ↦ read_skip (read_digits 0 0 rest)
]

-- The request for a window of a collection, without an identifier and without a filter.
abbrev pub ask : String → Window → Request
ask url w = record {
  url = url;
  top = some w.top;
  skip = some w.skip;
  item_id = none;
  filter_option = none;
}

-- The text of the next link of a response.
abbrev pub link_of : Result Response → Option String
link_of (ok (page n link values)) = link
link_of (ok (entity e)) = none
link_of (err e) = none

-- The windows that a client asks for which follows the links, by their texts alone; `none` where a
-- link is not read or the fuel runs out before a page without a link.
unfoldable pub visited : ℕ → String → ℕ → Window → Option (List Window)
unfolding handle_results_properties read_link
visited zero url total w = none
visited (suc fuel) url total w = elim (link_of (handle_results_properties (ask url w) total [])) [
  | none ↦ some (w ∷ [])
  | some link ↦ elim (read_link url link) [
    | none ↦ none
    | some next ↦ elim (visited fuel url total next) [ none ↦ none | some later ↦ some (w ∷ later) ]
  ]
]

-- How many of the windows hold the position `i`.
abbrev pub holders : List Window → ℕ → ℕ
holders [] i = 0
holders (w ∷ ws) i = (if leb w.skip i && ltb i (w.skip + w.top) then 1 else 0) + holders ws i

-- Each position of the collection from `skip` on is in exactly one of the windows, and none before.
abbrev pub Covers : ℕ → ℕ → List Window → Type 0
Covers total skip ws =
    ((i : ℕ) → i < skip → holders ws i ≡ 0) × ((i : ℕ) → skip ≤ i → i < total → holders ws i ≡ 1)
