-- ===== src/Aws/Registration/Kept.antt =====
-- mutateRegistrationInfo of aws/elb.go, called again for the same container.
use registrator.Common.{ℕ, ◌≡◌, sym, ◌∙◌, ap, ◌<>◌, Bool-cases, inl, inr}
use registrator.Common.Int.{ℤ}
use registrator.Bridge.Types.{Service}
use registrator.Aws.Cache.{Cache, Keeps}
use registrator.Aws.Flags.{has_explicit_elb}
use registrator.Aws.Instance.{AwsMetadata, Instance}
use registrator.Aws.Api.{AwsApi, LoadBalancerInfo, Cached}
use registrator.Aws.Lookup.{Looked, found, failed, crashed, unended, then_look}
use registrator.Aws.Lookup.Kept.{
  get_elbv2_for_container-hit, get_elbv2_for_container-kept, found_same,
}
use registrator.Aws.Registration.{
  values_of, with_endpoint, as_load_balancer, get_elb_metadata, mutate_registration_info,
}

module _ (C : Cache Cached) {A B : Type 0} where
  -- A result that a look-up has been mapped to.
  mapped :
      (f : A → B) (x : Looked A × C.State) (b : B) (s' : C.State)
      → then_look C x (λ a s. (found (f a), s)) ≡ (found b, s')
      → (a : A) × (x ≡ (found a, s')) × (b ≡ f a)
  mapped f (found a, s) b s' e =
      (a, ap (λ s. (found a, s)) (ap (λ p. p.1) e), sym (found_same (ap (λ p. p.0) e)))
  mapped f (failed, s) b s' e = let e' = ap (λ p. p.0) e in cc
  mapped f (crashed, s) b s' e = let e' = ap (λ p. p.0) e in cc
  mapped f (unended, s) b s' e = let e' = ap (λ p. p.0) e in cc

module _ (C : Cache Cached) (fuel : ℕ) (aws : AwsMetadata) where
  -- The details of a container's load balancer, once found, are found again.
  get_elb_metadata-again :
      Keeps C
      → (api : AwsApi) (s : Service) (port : ℤ) (c c' : C.State) (info : LoadBalancerInfo)
      → get_elb_metadata C fuel aws api s port c ≡ (found info, c')
      → (api' : AwsApi) (port' : ℤ) (d : C.State)
      → C.get ("container_" <> s.origin.container_id) d
        ≡ C.get ("container_" <> s.origin.container_id) c'
      → (get_elb_metadata C fuel aws api' s port' d).0 ≡ found info
  unfolding get_elb_metadata
  get_elb_metadata-again keeps api s port c c' info e api' port' d same =
      elim (Bool-cases (has_explicit_elb s.attrs)) [
        | inl h ↦ rw (h, get_elb_metadata) (ap (λ p. p.0) (rw (h, get_elb_metadata) at e))
        | inr h ↦
            let (kept, looked, made) =
              mapped C with_endpoint _ info c' (rw (h, get_elb_metadata) at e) in
            let there =
              same
              ∙ get_elbv2_for_container-kept C api fuel keeps s.origin.container_id
                  (values_of aws s.attrs port) c c' kept looked in
            rw (h, get_elb_metadata)
              (rw
                (get_elbv2_for_container-hit C api' fuel s.origin.container_id
                  (values_of aws s.attrs port') d kept there)
                (ap found (sym made)))
      ]

  -- With a cache that keeps what is set. Once the registration of a service has been turned into that
  -- of a load balancer, every later registration of the service is turned into that of the same load
  -- balancer, whatever AWS answers by then, as long as the cache has for the service's container
  -- what it had.
  pub mutate_registration_info-again :
      Keeps C
      → (api : AwsApi) (s : Service) (r r' : Instance) (c c' : C.State)
      → mutate_registration_info C fuel aws api s r c ≡ (found r', c')
      → (api' : AwsApi) (q : Instance) (d : C.State)
      → C.get ("container_" <> s.origin.container_id) d
        ≡ C.get ("container_" <> s.origin.container_id) c'
      → (info : LoadBalancerInfo) × (r' ≡ as_load_balancer s.attrs info r)
        × ((mutate_registration_info C fuel aws api' s q d).0
            ≡ found (as_load_balancer s.attrs info q))
  unfolding mutate_registration_info
  mutate_registration_info-again keeps api s r r' c c' e api' q d same =
      let (info, looked, made) =
        mapped C (λ info. as_load_balancer s.attrs info r) _ r' c'
          (unfold mutate_registration_info in e) in
      (
        info,
        made,
        then_found (get_elb_metadata C fuel aws api' s q.port d) info
            (get_elb_metadata-again keeps api s r.port c c' info looked api' q.port d same),
      )
    where
      then_found :
          (x : Looked LoadBalancerInfo × C.State) (info : LoadBalancerInfo)
          → x.0 ≡ found info
          → (then_look C x (λ i s'. (found (as_load_balancer s.attrs i q), s'))).0
            ≡ found (as_load_balancer s.attrs info q)
      then_found (found i, s') info e =
          ap (λ i. found (as_load_balancer s.attrs i q)) (found_same e)
      then_found (failed, s') info e = cc
      then_found (crashed, s') info e = cc
      then_found (unended, s') info e = cc
