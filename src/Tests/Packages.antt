-- ===== src/Tests/Packages.antt =====
-- The generic packages: collections, errors, transformations.
use instana_agent_operator.Prelude.{
  String, ◌≡◌, refl, none, some, List, [], ◌∷◌, Memᴰ, string_comparable,
}
use instana_agent_operator.Collections.{diff, filter, contains_element}
use instana_agent_operator.Errors.{Error, text, MultiErrorBuilder, build}
use instana_agent_operator.Errors.Laws.{Wraps, build-Wraps}
use instana_agent_operator.Transform.{add_owner_reference}
use instana_agent_operator.Transform.Owners.{IsOwned, add_owner_reference-IsOwned}
use instana_agent_operator.Tests.Fixture.{transformations, stored_config_map}

abbrev old_names : List String
old_names = "a" ∷ "b" ∷ []

abbrev new_names : List String
new_names = "b" ∷ "c" ∷ []

diff_test : diff old_names new_names ≡ "a" ∷ []
unfolding diff filter contains_element
diff_test = refl

abbrev two_errors : MultiErrorBuilder
two_errors = none ∷ some (text "first") ∷ some (text "second") ∷ []

build-Wraps_example : (e : Error) × (build two_errors ≡ some e) × Wraps (text "second") e
build-Wraps_example = build-Wraps two_errors (Memᴰ.tail (Memᴰ.tail (Memᴰ.head refl)))

add_owner_reference-IsOwned_example :
    IsOwned transformations []
      (add_owner_reference transformations stored_config_map).owner_references
add_owner_reference-IsOwned_example = add_owner_reference-IsOwned transformations stored_config_map
