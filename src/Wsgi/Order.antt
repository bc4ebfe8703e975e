-- ===== src/Wsgi/Order.antt =====
-- The patches come before the application.
use mathlib.Core.List.{List, [], ◌∷◌}
use sta_generation_service.Prelude.{
  String, Bool, true, false, ◌&&◌, if◌then◌else◌, ◌≡◌, refl, subst, arith, Bool-cases, inl, inr,
}
use sta_generation_service.Wsgi.{
  Environ, is_true, BootCall, patch_all, patch_psycopg, get_wsgi_application, Sockets, boots,
  assertion_error, check_sockets, patch_gevent, boot,
}

-- Whether the calls begin with the two patches, and whether they begin with the application.
abbrev pub patches_first : List BootCall → Bool
patches_first (patch_all ∷ patch_psycopg ∷ get_wsgi_application name ∷ calls) = true
patches_first calls = false

abbrev pub loads_first : List BootCall → Bool
loads_first (get_wsgi_application name ∷ calls) = true
loads_first calls = false

module _ (sockets : Sockets) where
  abbrev InOrder : Bool → List BootCall → Type 0
  InOrder patched calls =
      (if patched then patches_first calls && check_sockets sockets else loads_first calls) ≡ true

  in_order :
      (patched : Bool) (name : String) (log : BootCall) (calls : List BootCall)
      → (if patched
          then patch_gevent true sockets (patch_psycopg ∷ get_wsgi_application name ∷ log ∷ [])
          else boots (get_wsgi_application name ∷ log ∷ []))
        ≡ boots calls
      → InOrder patched calls
  unfolding patch_gevent
  in_order true name log calls h = elim (Bool-cases (check_sockets sockets)) [
    | inl passed ↦
        let done : boots (patch_all ∷ patch_psycopg ∷ get_wsgi_application name ∷ log ∷ [])
            ≡ boots calls =
          rw (passed) at h in
        let e : (patch_all ∷ patch_psycopg ∷ get_wsgi_application name ∷ log ∷ []) ≡ calls =
          ground arith in
        subst (InOrder true) e passed
    | inr refused ↦
        let bad : assertion_error (patch_all ∷ []) ≡ boots calls = rw (refused) at h in absurd (cc)
  ]
  in_order false name log calls h =
      let e : (get_wsgi_application name ∷ log ∷ []) ≡ calls = ground arith in
      subst (InOrder false) e refl

-- Where the module `wsgi` is loaded without an error, gevent's patches come before the application if
-- both variables are true, and all of the three sockets are gevent's then; else nothing is patched
-- before it.
boot-patches :
    (environ : Environ) (sockets : Sockets) (calls : List BootCall)
    → boot environ sockets ≡ boots calls
    → (if is_true environ "SRV_UWSGI_GEVENT" && is_true environ "_SRV_RUNNING_INSIDE_UWSGI"
        then patches_first calls && check_sockets sockets
        else loads_first calls)
      ≡ true
unfolding boot
boot-patches environ sockets calls h =
    in_order sockets
      (is_true environ "SRV_UWSGI_GEVENT" && is_true environ "_SRV_RUNNING_INSIDE_UWSGI") _ _ calls
      h
