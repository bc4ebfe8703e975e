-- ===== src/Memcached/Clients/Names.antt =====
-- Which clients a client of several servers has.
use mathlib.Core.List.{List, [], ◌∷◌}
use text.Mathlib.Text.{◌==◌}
use sta_generation_service.Prelude.{
  ℕ, String, Bool, true, false, Option, none, some, is_some, if◌then◌else◌, ◌≡◌, refl, ap, ◌∙◌,
}
use sta_generation_service.Dict.{Dict, lookup, insert, update}
use sta_generation_service.Dict.Laws.{lookup-insert}
use sta_generation_service.Memcached.Clients.{
  Arguments, HashClient, default_kwargs_of, fresh, add_servers, init,
}

-- What `add_server` promises: a client of the server, made with the default arguments, stands under
-- the server's name from then on, and the default arguments stay.
pub record Registers {V H K : Type 0} (name : String → ℕ → String) (make : String → ℕ → Dict V → K)
    (add_server : String → ℕ → HashClient V H K → HashClient V H K) : Type 0 where
  pub registered :
      (server : String) (port : ℕ) (self : HashClient V H K)
      → (add_server server port self).clients
        ≡ insert (name server port) (make server port self.default_kwargs) self.clients
  pub kept :
      (server : String) (port : ℕ) (self : HashClient V H K)
      → (add_server server port self).default_kwargs ≡ self.default_kwargs

-- The client under a name: the one of the last server of this name.
abbrev pub client_of :
    {V K : Type 0}
    → (String → ℕ → String)
    → (String → ℕ → Dict V → K)
    → Dict V
    → List (String × ℕ)
    → String
    → Option K
    → Option K
client_of name make kwargs [] n found = found
client_of name make kwargs ((server, port) ∷ servers) n found =
    client_of name make kwargs servers n
      (if name server port == n then some (make server port kwargs) else found)

module _ {V H K : Type 0} (name : String → ℕ → String) (make : String → ℕ → Dict V → K)
    (add_server : String → ℕ → HashClient V H K → HashClient V H K)
    (registers : Registers name make add_server) (n : String) where
  add_servers-client :
      (servers : List (String × ℕ)) (self : HashClient V H K)
      → lookup n (add_servers add_server servers self).clients
        ≡ client_of name make self.default_kwargs servers n (lookup n self.clients)
  unfolding add_servers
  add_servers-client [] self = refl
  add_servers-client ((server, port) ∷ servers) self =
      let later = add_server server port self in
      let k = name server port in
      add_servers-client servers later
      ∙ ap (λ kwargs. client_of name make kwargs servers n (lookup n later.clients))
          (registers.kept server port self)
      ∙ ap (client_of name make self.default_kwargs servers n) (
          ap (lookup n) (registers.registered server port self)
          ∙ lookup-insert k n (make server port self.default_kwargs) self.clients)

is_some-if :
    {V : Type 0} (k : String) (b : Bool) (d e : Dict V)
    → is_some (lookup k d) ≡ true
    → is_some (lookup k e) ≡ false
    → is_some (lookup k (if b then d else e)) ≡ b
is_some-if k true d e there absent = there
is_some-if k false d e there absent = absent

-- A client of several servers has under each name the client of the last server with this name and
-- under no other name any: each is made with the default arguments, which have the two settings of a
-- pool where pooling is asked for only.
init-client :
    {V H K : Type 0} (name : String → ℕ → String) (make : String → ℕ → Dict V → K)
    (add_server : String → ℕ → HashClient V H K → HashClient V H K) (now : V) (a : Arguments V H)
    (servers : List (String × ℕ)) (n : String)
    → Registers name make add_server
    → (lookup n (init add_server now a servers).clients
        ≡ client_of name make (default_kwargs_of a) servers n none)
      × (is_some (lookup "max_pool_size" (default_kwargs_of a)) ≡ a.use_pooling)
      × (is_some (lookup "lock_generator" (default_kwargs_of a)) ≡ a.use_pooling)
unfolding init fresh default_kwargs_of lookup update insert
init-client name make add_server now a servers n registers = (
  add_servers-client name make add_server registers n servers (fresh now a),
  is_some-if "max_pool_size" a.use_pooling _ _ refl refl,
  is_some-if "lock_generator" a.use_pooling _ _ refl refl,
)
