-- ===== src/Examples/Metadata.antt =====
-- Metadata of concrete containers.
use registrator.Common.{◌≡◌, refl, String, some, none, true, false, [], ◌∷◌}
use registrator.Common.Map.{Map, get, get_or}
use registrator.Bridge.Metadata.Laws.{service_meta_data_specific}
use registrator.Bridge.Metadata.{target, service_meta_data, merge_env, lookup_meta_data}

abbrev sample_labels : Map String
sample_labels =
    ("SERVICE_80_NAME", "api")
    ∷ ("SERVICE_NAME", "web")
    ∷ ("SERVICE_443_NAME", "tls")
    ∷ ("OTHER", "x")
    ∷ ("SERVICE_TAGS", "a,b")
    ∷ []

collected_tests :
    (get "name" (service_meta_data "80" sample_labels).values ≡ some "api")
    × (get "name" (service_meta_data "8080" sample_labels).values ≡ some "web")
    × (get "tags" (service_meta_data "80" sample_labels).values ≡ some "a,b")
    × (get "other" (service_meta_data "80" sample_labels).values ≡ none)
unfolding service_meta_data get
collected_tests = (refl, refl, refl, refl)

env_tests :
    (merge_env (some (("A", "1") ∷ [])) ("A=2" ∷ "B=x=y" ∷ [])
      ≡ some (some (("A", "2") ∷ ("B", "x=y") ∷ [])))
    × (merge_env none ("A=2" ∷ []) ≡ none)
    × (merge_env (some []) ("A" ∷ []) ≡ none)
    × (lookup_meta_data ("a=1" ∷ "Service_Use=yes" ∷ []) "SERVICE_USE" ≡ some "yes")
unfolding merge_env lookup_meta_data
env_tests = (refl, refl, refl, refl)

service_meta_data_specific_example :
    (get "name" (service_meta_data "80" sample_labels).values ≡ some "api")
    × (get_or false "name" (service_meta_data "80" sample_labels).from_port ≡ true)
unfolding target
service_meta_data_specific_example =
    service_meta_data_specific "80" "name" "80_name" "SERVICE_80_NAME" "api" [] _ refl tt
      (tt, (tt, (tt, (tt, tt))))
