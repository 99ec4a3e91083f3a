-- ===== src/Program/Lookup.antt =====
-- GetIPFromExternalSource of bridge/util.go. The answers of the external source are a parameter: the
-- body that an attempt reads, or `none` where the request or the read of its body fails. The waits
-- between the attempts and the log are not modelled.
use registrator.Common.{
  ℕ, zero, suc, ◌+◌, ◌<◌, ◌≡◌, ◌≢◌, refl, ◌∙◌, ap, String, Bool, true, false, Option, none, some,
  if◌then◌else◌, ◌==◌, eq_of_ne, arith,
}
use registrator.Common.Int.{ℤ, pos}
use registrator.Bridge.Types.{Config}

-- The package variables ipLookupAddress and ipLookupRetries
pub record LookupSettings : Type 0 where
  pub address : String
  pub retries : ℤ

abbrev pub no_lookup : LookupSettings
no_lookup = record { address = ""; retries = pos 0 }

abbrev pub set_external_ip_source : String → LookupSettings → LookupSettings
set_external_ip_source address l = record l { address = address }

abbrev pub set_ip_lookup_retries : ℤ → LookupSettings → LookupSettings
set_ip_lookup_retries number l = record l { retries = number }

abbrev pub should_exit_on_ip_lookup_failure : Config → Bool
should_exit_on_ip_lookup_failure config = config.exit_on_ip_lookup_failure

-- The loop: the attempts that are left, and the number of the next one. A body, an empty one too,
-- ends it.
unfoldable pub lookup_from : (ℕ → Option String) → ℕ → ℕ → String
lookup_from answer zero attempt = ""
lookup_from answer (suc left) attempt =
    let rest = lookup_from answer left (suc attempt) in
    elim (answer attempt) [ none ↦ rest | some ip ↦ ip ]

-- The address and whether there is one, for `ipLookupRetries` attempts from the first.
unfoldable pub ip_from_external_source : (ℕ → Option String) → ℕ → String × Bool
unfolding lookup_from
ip_from_external_source answer retries =
    let ip = lookup_from answer retries 1 in if ip == "" then ("", false) else (ip, true)

lookup_from-hit :
    (answer : ℕ → Option String) (k left attempt : ℕ) (ip : String)
    → k < left
    → ((j : ℕ) → j < k → answer (attempt + j) ≡ none)
    → answer (attempt + k) ≡ some ip
    → lookup_from answer left attempt ≡ ip
unfolding lookup_from
lookup_from-hit answer k zero attempt ip lt h e = absurd (omega arith)
lookup_from-hit answer zero (suc left) attempt ip lt h e =
    let e' : answer attempt ≡ some ip = ap answer (omega arith) ∙ e in rw (e', lookup_from) refl
lookup_from-hit answer (suc k) (suc left) attempt ip lt h e =
    let e' : answer attempt ≡ none = ap answer (omega arith) ∙ h 0 (omega arith) in
    rw (e', lookup_from)
      (lookup_from-hit answer k left (suc attempt) ip (omega arith)
        (λ j lt'. ap answer (omega arith) ∙ h (suc j) (omega arith)) (ap answer (omega arith) ∙ e))

lookup_from-miss :
    (answer : ℕ → Option String) (left attempt : ℕ)
    → ((j : ℕ) → j < left → answer (attempt + j) ≡ none)
    → lookup_from answer left attempt ≡ ""
unfolding lookup_from
lookup_from-miss answer zero attempt h = refl
lookup_from-miss answer (suc left) attempt h =
    let e' : answer attempt ≡ none = ap answer (omega arith) ∙ h 0 (omega arith) in
    rw (e', lookup_from)
      (lookup_from-miss answer left (suc attempt)
        (λ j lt. ap answer (omega arith) ∙ h (suc j) (omega arith)))

-- The lookup returns the body of the first attempt that has one, if that attempt is within the
-- number of retries and its body is not empty.
ip_from_external_source-hit :
    (answer : ℕ → Option String) (k retries : ℕ) (ip : String)
    → k < retries
    → ((j : ℕ) → j < k → answer (suc j) ≡ none)
    → answer (suc k) ≡ some ip
    → ip ≢ ""
    → ip_from_external_source answer retries ≡ (ip, true)
unfolding ip_from_external_source
ip_from_external_source-hit answer k retries ip lt h e n =
    rw
      (
        lookup_from-hit answer k retries 1 ip lt (λ j lt'. ap answer (omega arith) ∙ h j lt')
            (ap answer (omega arith) ∙ e),
        eq_of_ne ip "" n,
      )
      refl

-- With no answer to any attempt within the number of retries there is no address.
ip_from_external_source-miss :
    (answer : ℕ → Option String) (retries : ℕ)
    → ((j : ℕ) → j < retries → answer (suc j) ≡ none)
    → ip_from_external_source answer retries ≡ ("", false)
unfolding ip_from_external_source
ip_from_external_source-miss answer retries h =
    rw (lookup_from-miss answer retries 1 (λ j lt. ap answer (omega arith) ∙ h j lt)) refl
