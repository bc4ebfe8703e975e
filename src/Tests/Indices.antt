-- ===== src/Tests/Indices.antt =====
-- The index commands over an index that is a list of records or is missing.
use mathlib.Core.List.{List, [], ◌∷◌}
use sta_generation_service.Prelude.{
  String, true, false, Option, none, some, is_some, ◌≡◌, inr, refl, if◌then◌else◌,
}
use sta_generation_service.IndexCommand.{Index, Options, rebuild, World, finished, rebuild_}
use sta_generation_service.IndexCommand.Outcomes.{Works, fresh, rebuild-fresh}

abbrev Records : Type 0
Records = Option (List String)

abbrev records : Index Records
records = record {
  exists_ = λ s. is_some s;
  create_index = λ s. (none, some []);
  delete_index = λ s. (none, none);
  delete_any = λ s. (none, none);
  refresh = λ s. (none, s);
  index_single = λ identifier s. (none, s);
  index_all =
      λ s. (if is_some s then none else some "no index", if is_some s then some ("a" ∷ []) else s);
  count = λ s. 0;
  description = λ s. "";
}

records-Works : Works records
records-Works = record {
  deleted = λ s. (refl, refl);
  created = λ s missing. (refl, refl);
  populated = λ s there. rw there (refl, refl);
}

abbrev options : Options
options = record {
  single = none;
  action = some rebuild;
  refresh = false;
  force = false;
  quiet = true;
  ignore_existing = false;
  verbosity = 1;
}

abbrev old : World Records
old = record { index = some ("b" ∷ []); lines = [] }

rebuild-fresh_example :
    (v : World Records) × (rebuild_ records options "Y" old ≡ (finished, v))
    × (v.index ≡ fresh records (some ("b" ∷ [])))
    × (is_some v.index ≡ true)
unfolding rebuild_
rebuild-fresh_example = rebuild-fresh records options "Y" old records-Works (inr refl)

-- The population of this index raises.
abbrev broken : Index Records
broken = record records { index_all = λ s. (some "no mapping", s) }
