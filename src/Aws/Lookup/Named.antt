-- ===== src/Aws/Lookup/Named.antt =====
-- The look-up of aws/elb.go for a container whose attributes name its service.
use registrator.Common.{
  ℕ, ◌≡◌, ◌≢◌, refl, sym, ◌∙◌, ap, String, Bool, true, false, ◌&&◌, if◌then◌else◌, eq_of_ne,
}
use registrator.Aws.Cache.{Cache}
use registrator.Aws.Api.{AwsApi, Cached}
use registrator.Aws.Lookup.{
  Looked, LookupValues, Balancer, get_load_balancer_from_service, then_look, failed,
}
use registrator.Aws.Lookup.Run.{
  service_of, find_balancer, describe_balancer, get_elb_and_cache_details,
}

module _ (C : Cache Cached) (api : AwsApi) (fuel : ℕ) where
  service_of-named :
      (l : LookupValues) → l.service_name ≢ "" → service_of C api fuel l ≡ (l.service_name, "")
  unfolding service_of
  service_of-named l n = rw (eq_of_ne l.service_name "" n, service_of) (never _ _ _ _)
    where
      never : (x y : String × String) (a b : Bool) → (if a && (b && false) then x else y) ≡ y
      never x y false b = refl
      never x y true false = refl
      never x y true true = refl

  find_balancer-named :
      (l : LookupValues) (s : C.State)
      → l.service_name ≢ ""
      → find_balancer C api fuel l s ≡ (get_load_balancer_from_service api l.service_name "", s)
  unfolding find_balancer
  find_balancer-named l s n =
      rw (service_of-named l n, find_balancer) (rw (eq_of_ne l.service_name "" n) refl)

  -- For a container whose attributes name its service, the details depend on the service's name only:
  -- the cluster's name is not used, and a container of a service of the same name in another
  -- cluster is looked up in the same way.
  pub get_elb_and_cache_details-named :
      (l l' : LookupValues) (s : C.State)
      → l.service_name ≢ ""
      → l'.service_name ≡ l.service_name
      → get_elb_and_cache_details C api fuel l s ≡ get_elb_and_cache_details C api fuel l' s
  unfolding get_elb_and_cache_details
  get_elb_and_cache_details-named l l' s n e = ap details (same (sym e))
    where
      details : Looked Balancer × C.State → Looked Cached × C.State
      details x =
          if api.has_session
          then then_look C x (λ b s'. describe_balancer C api fuel b s')
          else (failed, s)

      same :
          l.service_name ≡ l'.service_name
          → find_balancer C api fuel l s ≡ find_balancer C api fuel l' s
      same e =
          find_balancer-named l s n
          ∙ ap (λ name. (get_load_balancer_from_service api name "", s)) e
          ∙ sym (find_balancer-named l' s (λ h. n (e ∙ h)))
