-- ===== src/Aws/Services/Laws.antt =====
-- lookupServiceName of aws/elb.go asks for at most ten services at a time, and finds what one request
-- for all of them would.
use registrator.Common.{
  ℕ, ◌+◌, ◌%◌, ◌≤◌, ◌<◌, ◌≡◌, refl, sym, ◌∙◌, ap, String, Bool, true, false, ◌||◌, Option, some,
  List, [], ◌∷◌, ◌++◌, append_assoc, inl, inr, ◌==◌, length, length-append, Bool-cases, arith,
}
use registrator.Aws.Api.{EcsService, AwsApi}
use registrator.Aws.Services.{matching, is_full, match_services, only_match, lookup_service_name}

-- The services of the names, each looked up by itself.
abbrev pub services_named : (String → List EcsService) → List String → List EcsService
services_named one [] = []
services_named one (n ∷ ns) = one n ++ services_named one ns

-- What DescribeServices promises: it answers a request for one to ten names with their services.
abbrev AnswersTen : (List String → Option (List EcsService)) → (String → List EcsService) → Type 0
AnswersTen describe one =
    (names : List String)
    → 0 < length names
    → length names ≤ 10
    → describe names ≡ some (services_named one names)

tenth : (i : ℕ) (n : String) (ns : List String) → is_full i (n ∷ ns) ≡ true → 0 ≡ (i + 1) % 10
tenth i n ns e = ground arith

not_tenth :
    (i : ℕ) (n : String) (ns : List String) → is_full i (n ∷ ns) ≡ false → i % 10 + 1 ≡ (i + 1) % 10
not_tenth i n ns e = ground arith

module _ (describe : List String → Option (List EcsService)) (one : String → List EcsService)
    (answers : AnswersTen describe one) (definition : String) where
  services_named-append :
      (xs ys : List String)
      → services_named one (xs ++ ys) ≡ services_named one xs ++ services_named one ys
  services_named-append [] ys = refl
  services_named-append (x ∷ xs) ys =
      ap (λ l. one x ++ l) (services_named-append xs ys)
      ∙ sym (append_assoc (one x) (services_named one xs) (services_named one ys))

  matching-append :
      (xs ys : List EcsService)
      → matching definition (xs ++ ys) ≡ matching definition xs ++ matching definition ys
  unfolding matching
  matching-append [] ys = refl
  matching-append (x ∷ xs) ys = elim (Bool-cases (x.task_definition == definition)) [
    | inl e ↦ rw (e, matching-append xs ys) refl
    | inr e ↦ rw (e, matching-append xs ys) refl
  ]

  -- The matches of some names.
  abbrev matches : List String → List String
  matches names = matching definition (services_named one names)

  matches-append : (xs ys : List String) → matches (xs ++ ys) ≡ matches xs ++ matches ys
  matches-append xs ys =
      ap (matching definition) (services_named-append xs ys)
      ∙ matching-append (services_named one xs) (services_named one ys)

  -- A round that makes a request, and one that does not.
  round_asks :
      (i : ℕ) (chunk : List String) (n : String) (ns matched : List String)
      → length chunk < 10
      → is_full i ns ≡ true
      → match_services describe definition i chunk (n ∷ ns) matched
        ≡ match_services describe definition (i + 1) [] ns (matched ++ matches (chunk ++ n ∷ []))
  unfolding match_services
  round_asks i chunk n ns matched h full =
      let len : length (chunk ++ n ∷ []) ≡ length chunk + 1 = length-append chunk (n ∷ []) in
      rw (full, match_services) (rw (answers (chunk ++ n ∷ []) (omega arith) (omega arith)) refl)

  round_waits :
      (i : ℕ) (chunk : List String) (n : String) (ns matched : List String)
      → is_full i ns ≡ false
      → match_services describe definition i chunk (n ∷ ns) matched
        ≡ match_services describe definition (i + 1) (chunk ++ n ∷ []) ns matched
  unfolding match_services
  round_waits i chunk n ns matched full = rw (full, match_services) refl

  -- The chunk has as many names as have come since the last tenth one.
  match_services_lem :
      (i : ℕ) (chunk : List String) (n : String) (ns matched : List String)
      → length chunk ≡ i % 10
      → match_services describe definition i chunk (n ∷ ns) matched
        ≡ some (matched ++ matches (chunk ++ n ∷ ns))
  match_services_lem i chunk n [] matched h =
      round_asks i chunk n [] matched (omega arith) (either _) ∙ unfold match_services in refl
    where
      either : (b : Bool) → (b || true) ≡ true
      either b = ground arith
  match_services_lem i chunk n (n' ∷ ns) matched h = elim (Bool-cases (is_full i (n' ∷ ns))) [
    | inl full ↦
        round_asks i chunk n (n' ∷ ns) matched (omega arith) full
        ∙ match_services_lem (i + 1) [] n' ns (matched ++ matches (chunk ++ n ∷ []))
            (tenth i n' ns full)
        ∙ ap some (
            append_assoc matched (matches (chunk ++ n ∷ [])) (matches (n' ∷ ns))
            ∙ ap (λ l. matched ++ l)
                (sym (matches-append (chunk ++ n ∷ []) (n' ∷ ns))
                  ∙ ap matches (append_assoc chunk (n ∷ []) (n' ∷ ns))))
    | inr full ↦
        let len : length (chunk ++ n ∷ []) ≡ length chunk + 1 = length-append chunk (n ∷ []) in
        round_waits i chunk n (n' ∷ ns) matched full
        ∙ match_services_lem (i + 1) (chunk ++ n ∷ []) n' ns matched
            (len ∙ ap (λ k. k + 1) h ∙ not_tenth i n' ns full)
        ∙ ap (λ l. some (matched ++ matches l)) (append_assoc chunk (n ∷ []) (n' ∷ ns))
  ]

-- With a service that answers a request for one to ten names with their services, no request of the
-- lookup fails, however many names the cluster has: the result is the one service of them all that has
-- the task's definition, and an empty text if there is none or more than one. The requests made are
-- for ten names at most, since of longer ones nothing is assumed.
pub lookup_service_name-whole :
    (api : AwsApi) (one : String → List EcsService) (cluster task definition n : String)
    (ns rest : List String)
    → api.has_session ≡ true
    → api.list_services cluster ≡ some (n ∷ ns)
    → api.describe_tasks cluster task ≡ some (definition ∷ rest)
    → AnswersTen (api.describe_services cluster) one
    → lookup_service_name api cluster task
      ≡ only_match (some (matching definition (services_named one (n ∷ ns))))
unfolding lookup_service_name
lookup_service_name-whole api one cluster task definition n ns rest s l t answers =
    simp (s, l, t, lookup_service_name)
      (ap only_match (
        match_services_lem (api.describe_services cluster) one answers definition 0 [] n ns []
          (omega arith)))
