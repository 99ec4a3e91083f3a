-- ===== src/Aws/Services.antt =====
-- lookupServiceName of aws/elb.go: the one service of a cluster that a task belongs to.
pub mod Laws
use registrator.Common.{
  ℕ, zero, suc, ◌+◌, ◌%◌, String, Bool, true, false, ◌&&◌, ◌||◌, not, Option, none, some, List, [],
  ◌∷◌, ◌++◌, if◌then◌else◌, ◌==◌, ltb, num_eq,
}
use registrator.Aws.Api.{EcsService, AwsApi}

-- The names of the services with this task definition.
unfoldable pub matching : String → List EcsService → List String
matching definition [] = []
matching definition (s ∷ ss) =
    let rest = matching definition ss in
    if s.task_definition == definition then s.name ∷ rest else rest

abbrev is_last : List String → Bool
is_last [] = true
is_last (n ∷ ns) = false

-- A request is made at every tenth name, and at the last.
abbrev pub is_full : ℕ → List String → Bool
is_full i rest = (num_eq ((i + 1) % 10) 0 && ltb 0 i) || is_last rest

-- The loop over the names: the number of the next one, the names of the chunk, those to come, and the
-- matches so far. `none` is a request that fails.
unfoldable pub match_services :
    (List String → Option (List EcsService))
    → String
    → ℕ
    → List String
    → List String
    → List String
    → Option (List String)
unfolding matching
match_services describe definition i chunk [] matched = some matched
match_services describe definition i chunk (n ∷ ns) matched = elim (is_full i ns) [
  | false ↦ match_services describe definition (i + 1) (chunk ++ n ∷ []) ns matched
  | true ↦ elim (describe (chunk ++ n ∷ [])) [
    | none ↦ none
    | some services ↦
        match_services describe definition (i + 1) [] ns (matched ++ matching definition services)
  ]
]

-- Exactly one match is taken.
abbrev pub only_match : Option (List String) → String
only_match (some (n ∷ [])) = n
only_match _ = ""

abbrev match_listed : AwsApi → String → List String → Option (List String) → String
match_listed api cluster names (some (definition ∷ rest)) =
    only_match (match_services (api.describe_services cluster) definition 0 [] names [])
match_listed api cluster names _ = ""

abbrev name_listed : AwsApi → String → String → Option (List String) → String
name_listed api cluster task (some (n ∷ ns)) =
    match_listed api cluster (n ∷ ns) (api.describe_tasks cluster task)
name_listed api cluster task _ = ""

-- lookupServiceName: an empty text for every failure. No name at all is a nil list.
unfoldable pub lookup_service_name : AwsApi → String → String → String
unfolding match_services
lookup_service_name api cluster task =
    if api.has_session then name_listed api cluster task (api.list_services cluster) else ""
