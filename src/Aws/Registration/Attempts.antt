-- ===== src/Aws/Registration/Attempts.antt =====
-- The attempts of RegisterWithELBv2 of aws/elb.go.
use registrator.Common.{ℕ, zero, suc, ◌+◌, ◌≡◌, refl, ◌∙◌, ◌<>◌, true, some}
use registrator.Bridge.Types.{Service}
use registrator.Aws.Cache.{Cache}
use registrator.Aws.Flags.{check_elb_flags}
use registrator.Aws.Instance.{AwsMetadata, Instance, unique_id}
use registrator.Aws.Api.{AwsApi, Cached}
use registrator.Aws.Lookup.{Looked, found, failed, crashed, unended}
use registrator.Aws.Registration.{
  Eureka, Calls, mutate_registration_info, with_cache, after_attempt, register_from,
  register_with_elbv2,
}

module _ (C : Cache Cached) (fuel : ℕ) (aws : AwsMetadata) (E : Eureka) (apis : ℕ → AwsApi)
    (s : Service) (r : Instance) where
  -- What the attempt with this number makes of the registration.
  abbrev pub attempt : ℕ → C.State → Looked Instance × C.State
  attempt n c = mutate_registration_info C fuel aws (apis n) s r c

  -- The cache after some attempts, the first of them with this number, and that they all fail.
  abbrev cache_after : ℕ → ℕ → C.State → C.State
  cache_after n zero c = c
  cache_after n (suc k) c = cache_after (n + 1) k (attempt n c).1

  abbrev Fail : ℕ → ℕ → C.State → Type 0
  Fail n zero c = Unit
  Fail n (suc k) c = ((attempt n c).0 ≡ failed) × Fail (n + 1) k (attempt n c).1

  register_from-failed :
      (left n : ℕ) (w : Calls C fuel aws E)
      → (attempt n w.health.cache).0 ≡ failed
      → register_from C fuel aws E (suc left) n apis s r w
        ≡ register_from C fuel aws E left
            (n + 1)
            apis
            s
            r
            (with_cache C fuel aws E (attempt n w.health.cache).1 w)
  unfolding register_from
  register_from-failed left n w e = then_failed (attempt n w.health.cache) e
    where
      then_failed :
          (x : Looked Instance × C.State)
          → x.0 ≡ failed
          → after_attempt C fuel aws E
              (apis n)
              s
              w
              (λ w'. register_from C fuel aws E left (n + 1) apis s r w')
              x
            ≡ register_from C fuel aws E left (n + 1) apis s r (with_cache C fuel aws E x.1 w)
      then_failed (found elb, c) e = cc
      then_failed (failed, c) e = refl
      then_failed (crashed, c) e = cc
      then_failed (unended, c) e = cc

  register_from-miss :
      (left n : ℕ) (w : Calls C fuel aws E)
      → Fail n left w.health.cache
      → register_from C fuel aws E left n apis s r w ≡ (
        found (some ("unable to register ELBv2: " <> unique_id r.host_name r.port)),
        with_cache C fuel aws E (cache_after n left w.health.cache) w,
      )
  unfolding register_from
  register_from-miss zero n w f = refl
  register_from-miss (suc left) n w (f, fs) =
      register_from-failed left n w f
      ∙ register_from-miss left (n + 1) (with_cache C fuel aws E (attempt n w.health.cache).1 w) fs

  -- If four attempts fail, then an error is returned, nothing is sent to eureka, and the status of the
  -- container is kept.
  register_with_elbv2-miss :
      (w : Calls C fuel aws E)
      → check_elb_flags s.attrs ≡ true
      → Fail 0 4 w.health.cache
      → register_with_elbv2 C fuel aws E apis s r w ≡ (
        found (some ("unable to register ELBv2: " <> unique_id r.host_name r.port)),
        with_cache C fuel aws E (cache_after 0 4 w.health.cache) w,
      )
  unfolding register_with_elbv2
  register_with_elbv2-miss w flags f = rw (flags, register_with_elbv2) (register_from-miss 4 0 w f)
