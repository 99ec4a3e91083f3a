-- ===== src/Adapter/Client.antt =====
-- The client of a key-value store, consul's or etcd's: code of a third party, over an unknown state. A
-- call returns whether it succeeded. `ask` is the request of Ping, for etcd's version or for consul's
-- leader. An entry is set with the seconds that it lives, 0 being for ever;
-- the store is looked at while its entries live.
use registrator.Common.{ℕ, ◌≡◌, ◌≢◌, String, ◌<>◌, Bool, true, Option, none, some, if◌then◌else◌}
use registrator.Common.Text.{chars, contains}
use registrator.Common.Decimal.{itoa}
use registrator.Bridge.Types.{Service}

pub record StoreClient : Type 1 where
  pub State : Type 0
  pub set : String → String → ℕ → State → State × Bool
  pub delete : String → State → State × Bool
  pub ask : State → State × Bool

-- What its documentation says of the two calls. One that fails may have changed its key.
pub record IsStore (C : StoreClient) : Type 0 where
  pub contents : C.State → String → Option String
  pub set_own :
      (k v : String) (ttl : ℕ) (s : C.State)
      → (C.set k v ttl s).1 ≡ true
      → contents (C.set k v ttl s).0 k ≡ some v
  pub set_other :
      (k v : String) (ttl : ℕ) (s : C.State) (j : String)
      → k ≢ j
      → contents (C.set k v ttl s).0 j ≡ contents s j
  pub delete_own :
      (k : String) (s : C.State) → (C.delete k s).1 ≡ true → contents (C.delete k s).0 k ≡ none
  pub delete_other :
      (k : String) (s : C.State) (j : String) → k ≢ j → contents (C.delete k s).0 j ≡ contents s j

-- net.JoinHostPort: brackets around an address with a colon
unfoldable pub join_host_port : String → String → String
unfolding contains
join_host_port host port =
    if contains (chars ":") (chars host)
    then "[" <> (host <> ("]:" <> port))
    else host <> (":" <> port)

-- The key of a service under a path, and the address that is stored.
unfoldable pub service_path : String → Service → String
service_path path s = path <> ("/" <> (s.name <> ("/" <> s.id)))

unfoldable pub service_address : Service → String
unfolding join_host_port itoa
service_address s = join_host_port s.ip (itoa s.port)
