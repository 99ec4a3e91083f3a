-- ===== src/Adapter/Zookeeper.antt =====
-- zookeeper/zookeeper.go over the client of a third party.
use registrator.Common.{
  is_some, ℕ, ◌≡◌, ◌≢◌, ◌↔◌, refl, String, ◌<>◌, Bool, true, false, Option, none, some, List, [],
  ◌∷◌, if◌then◌else◌, ◌==◌, Option-cases, inl, inr,
}
use registrator.Common.Int.{ℤ}
use registrator.Common.Map.{Map}
use registrator.Common.Text.{chars}
use registrator.Common.Decimal.{itoa, atoi_value}
use registrator.Bridge.Types.{Service}
use registrator.Bridge.World.{Registry}
use registrator.Adapter.Uri.{Uri}

pub record ZnodeBody : Type 0 where
  pub name : String
  pub ip : String
  pub public_port : ℤ
  pub private_port : ℤ
  pub container_id : String
  pub tags : List String
  pub attrs : Map String

-- Exists and Children answer `none` for an error; Create and Delete say whether they succeeded. A node
-- is created with its body, the JSON text of one, or with no bytes, and with its flags, 1 being an
-- ephemeral node.
pub record ZkClient : Type 1 where
  pub State : Type 0
  pub exists : String → State → Option Bool
  pub children : String → State → Option (List String)
  pub create : String → Option ZnodeBody → ℕ → State → State × Bool
  pub delete : String → State → State × Bool

unfoldable pub zk_base_path : String → Service → String
zk_base_path path s = if path == "/" then path <> s.name else path <> ("/" <> s.name)

unfoldable pub zk_service_path : String → Service → String
unfolding zk_base_path itoa
zk_service_path path s = zk_base_path path s <> ("/" <> (s.ip <> (":" <> itoa s.port)))

unfoldable pub znode_body : Service → ZnodeBody
unfolding atoi_value
znode_body s = record {
  name = s.name;
  ip = s.ip;
  public_port = s.port;
  private_port = atoi_value (chars s.origin.exposed_port);
  container_id = s.origin.container_hostname;
  tags = s.tags;
  attrs = s.attrs;
}

module _ (C : ZkClient) where
  -- The factory's second half: the base path is created where it is not known to exist.
  unfoldable pub zk_connect : String → C.State → C.State
  zk_connect path r = elim (C.exists path r) [
    | none ↦ (C.create path none 0 r).0
    | some e ↦ if e then r else (C.create path none 0 r).0
  ]

  -- Register. The errors of both calls of Create are those of inner variables: what is returned is
  -- the error of Exists.
  unfoldable pub zk_register : String → Service → C.State → C.State × Bool
  unfolding zk_base_path zk_service_path znode_body
  zk_register path s r = elim (C.exists (zk_base_path path s) r) [
    | none ↦ (r, false)
    | some e ↦
        let r' = if e then r else (C.create (zk_base_path path s) none 0 r).0 in
        ((C.create (zk_service_path path s) (some (znode_body s)) 1 r').0, true)
  ]

  -- Deregister. The error of the first Delete is overwritten by that of Children, and that of the
  -- second one is an inner variable's. With an error there are no children.
  unfoldable pub zk_deregister : String → Service → C.State → C.State × Bool
  unfolding zk_base_path zk_service_path
  zk_deregister path s r =
      let r' = (C.delete (zk_service_path path s) r).0 in
      elim (C.children (zk_base_path path s) r') [
        | none ↦ ((C.delete (zk_base_path path s) r').0, false)
        | some [] ↦ ((C.delete (zk_base_path path s) r').0, true)
        | some (c ∷ cs) ↦ (r', true)
      ]

  -- Ping: the answer of Exists for the root, whatever it is.
  unfoldable pub zk_ping : C.State → C.State × Bool
  zk_ping r = (r, is_some (C.exists "/" r))

  abbrev pub zookeeper : String → Registry
  zookeeper path = record {
    State = C.State;
    register = zk_register path;
    deregister = zk_deregister path;
    refresh = zk_register path;
    services = λ r. some [];
    ping = zk_ping;
  }

  register_reports :
      (path : String) (s : Service) (r : C.State)
      → ((zk_register path s r).1 ≡ true) ↔ (C.exists (zk_base_path path s) r ≢ none)
  unfolding zk_register
  register_reports path s r = elim (Option-cases (C.exists (zk_base_path path s) r)) [
    | inl e ↦ rw (e, zk_register) (λ h. cc, λ h. absurd (h refl))
    | inr (x, e) ↦ rw (e, zk_register) (λ h. λ f. cc, λ h. refl)
  ]

  deregister_reports :
      (path : String) (s : Service) (r : C.State)
      → ((zk_deregister path s r).1 ≡ true)
        ↔ (C.children (zk_base_path path s) (C.delete (zk_service_path path s) r).0 ≢ none)
  unfolding zk_deregister
  deregister_reports path s r =
      cases (C.children (zk_base_path path s) (C.delete (zk_service_path path s) r).0) refl
    where
      cases :
          (o : Option (List String))
          → C.children (zk_base_path path s) (C.delete (zk_service_path path s) r).0 ≡ o
          → ((zk_deregister path s r).1 ≡ true)
            ↔ (C.children (zk_base_path path s) (C.delete (zk_service_path path s) r).0 ≢ none)
      cases none e = rw (e, zk_deregister) (λ h. cc, λ h. absurd (h refl))
      cases (some []) e = rw (e, zk_deregister) (λ h. λ f. cc, λ h. refl)
      cases (some (c ∷ cs)) e = rw (e, zk_deregister) (λ h. λ f. cc, λ h. refl)

  -- Register reports success exactly if Exists answers, and Deregister exactly if Children does:
  -- whether the service's node was created or deleted has no say in it.
  pub zookeeper_reports :
      (path : String) (s : Service) (r : C.State)
      → (((zk_register path s r).1 ≡ true) ↔ (C.exists (zk_base_path path s) r ≢ none))
        × (((zk_deregister path s r).1 ≡ true)
            ↔ (C.children (zk_base_path path s) (C.delete (zk_service_path path s) r).0 ≢ none))
  zookeeper_reports path s r = (register_reports path s r, deregister_reports path s r)

-- The factory, over zk.Connect; `none` is a panic.
unfoldable pub zk_new :
    (String → Option ((C : ZkClient) × C.State)) → Uri → Option ((R : Registry) × R.State)
unfolding zk_connect zk_register zk_deregister zk_ping
zk_new connect uri = elim (connect uri.host) [
  | none ↦ none
  | some (C, r) ↦ some (zookeeper C uri.path, zk_connect C uri.path r)
]
