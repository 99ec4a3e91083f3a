-- ===== src/Eureka/Calls/Laws.antt =====
-- What Register, Deregister and Refresh of eureka/eureka.go make of the instances in eureka.
use registrator.Common.{
  ℕ, ◌≡◌, refl, ◌∙◌, ap, String, Bool, true, false, ◌&&◌, Option, none, some, if◌then◌else◌, ◌==◌,
}
use registrator.Bridge.Types.{Service}
use registrator.Aws.Cache.{Cache}
use registrator.Aws.Flags.{check_elb_flags}
use registrator.Aws.Instance.{AwsMetadata, Instance, unique_id}
use registrator.Aws.Api.{AwsApi, Cached}
use registrator.Aws.Lookup.{found}
use registrator.Aws.Registration.{Eureka, Calls, Done}
use registrator.Eureka.{instance_information}
use registrator.Eureka.Laws.{instance_information_total}
use registrator.Eureka.Calls.{
  with_instance, register_instance, deregister_instance, eureka_register, eureka_deregister,
  dropped_out,
}

-- Whether the instance is that of an application with a unique id.
abbrev pub is_at : Instance → String → String → Bool
is_at i app id = (i.app == app) && (unique_id i.host_name i.port == id)

-- The instance that is there already, or else the other one.
abbrev pub kept_or : Option Instance → Instance → Option Instance
kept_or none i = some i
kept_or (some j) i = some j

-- What eureka's client promises of calls without an error: RegisterInstance puts an instance under its
-- application and its unique id, if there is none yet; DeregisterInstance takes it away; and a
-- heartbeat changes none.
pub record IsEureka (E : Eureka) : Type 0 where
  pub instances : E.State → String → String → Option Instance
  pub register_lem :
      (i : Instance) (r : E.State) (app id : String)
      → (E.register i r).0 ≡ none
      → instances (E.register i r).1 app id
        ≡ (if is_at i app id then kept_or (instances r app id) i else instances r app id)
  pub deregister_lem :
      (i : Instance) (r : E.State) (app id : String)
      → (E.deregister i r).0 ≡ none
      → instances (E.deregister i r).1 app id
        ≡ (if is_at i app id then none else instances r app id)
  pub heartbeat_lem :
      (i : Instance) (r : E.State) (app id : String)
      → instances (E.heartbeat i r).1 app id ≡ instances r app id

-- Whether a heartbeat's error makes the adapter register anew.
abbrev pub drops : Option String → Bool
drops none = false
drops (some err) = dropped_out err

module _ (C : Cache Cached) (fuel : ℕ) (aws : AwsMetadata) (E : Eureka) (S : IsEureka E) where
  -- The instances after a call.
  abbrev pub after : Done C fuel aws E → String → String → Option Instance
  after d app id = S.instances d.1.client app id

  register_direct :
      (apis : ℕ → AwsApi) (s : Service) (r : Instance) (w : Calls C fuel aws E)
      → check_elb_flags s.attrs ≡ false
      → instance_information aws s ≡ some r
      → eureka_register C fuel aws E apis s w
        ≡ (found (E.register r w.client).0, record w { client = (E.register r w.client).1 })
  unfolding eureka_register
  register_direct apis s r w flags e =
      ap (with_instance C fuel aws E w (register_instance C fuel aws E apis s w)) e ∙ rw flags refl

  deregister_direct :
      (s : Service) (r : Instance) (w : Calls C fuel aws E)
      → check_elb_flags s.attrs ≡ false
      → instance_information aws s ≡ some r
      → eureka_deregister C fuel aws E s w
        ≡ (found (E.deregister r w.client).0, record w { client = (E.deregister r w.client).1 })
  unfolding eureka_deregister
  deregister_direct s r w flags e =
      ap (with_instance C fuel aws E w (deregister_instance C fuel aws E s w)) e ∙ rw flags refl

  -- A service without the flags of a load balancer, and a eureka that reports no error. Registering it
  -- puts its registration at its own application and unique id, if there is no instance there yet,
  -- and changes nothing else; deregistering it then takes away what is there, and nothing else.
  pub eureka_deregister-register :
      (apis : ℕ → AwsApi) (s : Service) (w : Calls C fuel aws E) (app id : String)
      → check_elb_flags s.attrs ≡ false
      → ((i : Instance) (r : E.State) → (E.register i r).0 ≡ none)
      → ((i : Instance) (r : E.State) → (E.deregister i r).0 ≡ none)
      → (r : Instance) × (instance_information aws s ≡ some r)
        × (after (eureka_register C fuel aws E apis s w) app id ≡ (
            if is_at r app id
            then kept_or (S.instances w.client app id) r
            else S.instances w.client app id))
        × (after (eureka_deregister C fuel aws E s (eureka_register C fuel aws E apis s w).1) app id
            ≡ (if is_at r app id then none else S.instances w.client app id))
  eureka_deregister-register apis s w app id flags registers deregisters =
      let (r, e, _, _, _) = instance_information_total aws s in
      let put = S.register_lem r w.client app id (registers r w.client) in
      (
        r,
        e,
        rw (register_direct apis s r w flags e) put,
        rw (register_direct apis s r w flags e) (
            rw (deregister_direct s r (record w { client = (E.register r w.client).1 }) flags e) (
              S.deregister_lem r (E.register r w.client).1 app id (deregisters r _)
              ∙ without _ _ _ (is_at r app id) put)),
      )
    where
      without :
          (x v u : Option Instance) (b : Bool)
          → u ≡ (if b then x else v)
          → (if b then none else u) ≡ (if b then none else v)
      without x v u true e = refl
      without x v u false e = e
