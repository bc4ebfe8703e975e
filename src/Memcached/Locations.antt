-- ===== src/Memcached/Locations.antt =====
-- CACHES of src/main/settings.py names the servers that the cache reads back.
use Prim.Native.String.{[], ◌∷◌}
use mathlib.Core.List.{List, [], ◌∷◌, ◌++◌, map}
use text.Mathlib.TextLemmas.{nil-append, cons-append}
use sta_generation_service.Prelude.{
  ℕ, String, false, none, some, if◌then◌else◌, ◌≡◌, refl, ap, ◌∙◌, Bool-cases, inl, inr, All,
}
use sta_generation_service.Text.{◌<>◌, split_on}
use sta_generation_service.Text.Number.{show, parse_nat-show}
use sta_generation_service.Text.Number.Digits.{has_code-show}
use sta_generation_service.Text.Split.{has_code, split_on-whole, split_on-two, split_on-append}
use sta_generation_service.Settings.{location}
use sta_generation_service.Memcached.Servers.{two_parts, server_address, server_addresses}

colon-append : (s : String) → (":" <> s) ≡ (":" ∷ s)
colon-append s = cons-append ":" [] s ∙ ap (λ t. ":" ∷ t) (nil-append s)

split_on-location :
    (port : ℕ) (host : String)
    → split_on b':' (location port host) ≡ split_on b':' host ++ show port ∷ []
unfolding location
split_on-location port host =
    ap (λ t. split_on b':' (host <> t)) (colon-append (show port))
    ∙ split_on-append b':' host ":" (show port) refl
    ∙ ap (λ l. split_on b':' host ++ l) (split_on-whole b':' (show port) (has_code-show port))

two_parts-pair : (host : String) (port : ℕ) → two_parts (host ∷ show port ∷ []) ≡ some (host, port)
unfolding two_parts
two_parts-pair host port = rw (two_parts, parse_nat-show port) refl

two_parts-more : (v w p : String) (ws : List String) → two_parts (v ∷ w ∷ (ws ++ p ∷ [])) ≡ none
unfolding two_parts
two_parts-more v w p [] = refl
two_parts-more v w p (x ∷ ws) = refl

-- The server that the settings name for a host and a port is read back as this host and this port
-- where the host has no colon; a host with a colon, as an IPv6 address has, raises ValueError.
pub server_address-location :
    (port : ℕ) (host : String)
    → server_address (location port host) ≡ (if has_code b':' host then none else some (host, port))
unfolding server_address
server_address-location port host = ap two_parts (split_on-location port host) ∙ read
  where
    read :
        two_parts (split_on b':' host ++ show port ∷ [])
        ≡ (if has_code b':' host then none else some (host, port))
    read = elim (Bool-cases (has_code b':' host)) [
      | inl colon ↦
          let (v, w, ws, e) = split_on-two b':' host colon in
          ap (λ l. two_parts (l ++ show port ∷ [])) e
          ∙ two_parts-more v w (show port) ws
          ∙ rw colon refl
      | inr free ↦
          ap (λ l. two_parts (l ++ show port ∷ [])) (split_on-whole b':' host free)
          ∙ two_parts-pair host port
          ∙ rw free refl
    ]

-- The servers of hosts without a colon are read back in their order.
pub server_addresses-locations :
    (port : ℕ) (hosts : List String)
    → All (λ host. has_code b':' host ≡ false) hosts
    → server_addresses (map (location port) hosts) ≡ some (map (λ host. (host, port)) hosts)
unfolding server_addresses
server_addresses-locations port [] free = refl
server_addresses-locations port (host ∷ hosts) (here, later) =
    rw
      (
        server_addresses,
        server_address-location port host,
        here,
        server_addresses-locations port hosts later,
      )
      refl
