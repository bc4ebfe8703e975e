-- ===== src/Settings/Domains.antt =====
-- The hosts that django allows.
use Prim.Native.String.{[], ◌∷◌}
use mathlib.Core.List.{List, [], ◌∷◌, ◌++◌}
use text.Mathlib.Text.{◌==◌ as str_eq}
use sta_generation_service.Prelude.{
  String, false, Option, none, some, ◌≡◌, refl, ap, ◌∙◌, All, if-intro,
}
use sta_generation_service.Text.{◌<>◌, split_on}
use sta_generation_service.Text.Split.{has_code, split_on-whole, split_on-append, split_on-All}
use sta_generation_service.Settings.{Main, head_text, domain_host, secondary_hosts, allowed_hosts}

-- No colon in a text.
abbrev pub IsBare : String → Type 0
IsBare s = has_code b':' s ≡ false

head_text-IsBare : (ws : List String) → All IsBare ws → IsBare (head_text ws)
head_text-IsBare [] all = refl
head_text-IsBare (w ∷ ws) (here, later) = here

domain_host-IsBare : (domain : String) → IsBare (domain_host domain)
unfolding domain_host
domain_host-IsBare domain = head_text-IsBare (split_on b':' domain) (split_on-All b':' domain)

secondary_hosts-IsBare :
    (secondary : Option String) → All IsBare (secondary_hosts secondary ++ "django" ∷ [])
unfolding secondary_hosts
secondary_hosts-IsBare none = (refl, tt)
secondary_hosts-IsBare (some domain) =
    if-intro (λ hosts. All IsBare (hosts ++ "django" ∷ [])) (str_eq domain "") (λ empty. (refl, tt))
      (λ filled. (domain_host-IsBare domain, (refl, tt)))

-- The hosts that are allowed have no port, as django compares them with a request's host without its
-- port: the first is the host of the main domain, whether that is given with a port or without.
allowed_hosts-IsBare :
    (main : Main)
    → All IsBare (allowed_hosts main)
      × ((host port : String)
          → IsBare host
          → (domain_host host ≡ host) × (domain_host (host <> (":" ∷ port)) ≡ host))
unfolding allowed_hosts domain_host
allowed_hosts-IsBare main = (
  (domain_host-IsBare main.main_domain, secondary_hosts-IsBare main.secondary_domain),
  λ host port bare. (
    ap head_text (split_on-whole b':' host bare),
    ap head_text (split_on-append b':' host ":" port refl)
        ∙ ap (λ ws. head_text (ws ++ split_on b':' port)) (split_on-whole b':' host bare),
  ),
)
