-- ===== src/Adapter/Etcd.antt =====
-- etcd/etcd.go. Both versions of the client have the same calls.
pub mod Lifetime
use registrator.Common.{◌≡◌, ◌∙◌, String, ◌<>◌, Bool, Option, none, some, [], if◌then◌else◌, ◌==◌}
use registrator.Common.Text.{chars, contains}
use registrator.Common.Decimal.{to_uint64}
use registrator.Bridge.Types.{Service}
use registrator.Bridge.World.{Registry}
use registrator.Adapter.Uri.{Uri}
use registrator.Adapter.Client.{StoreClient, IsStore, service_path, service_address}
use registrator.Adapter.Keyed.{IsKeyed}

unfoldable pub etcd_url : Uri → String
etcd_url uri = if uri.host == "" then "http://127.0.0.1:2379" else "http://" <> uri.host

-- Whether the version that etcd answers matches `0\.4\.*`: the last dot of it may be missing.
unfoldable pub uses_v0_client : String → Bool
unfolding contains
uses_v0_client body = contains (chars "0.4") (chars body)

-- The adapter, over what SyncCluster does to the state; its failure is logged.
module _ (C : StoreClient) (sync_cluster : C.State → C.State × Bool) where
  unfoldable pub etcd_register : String → Service → C.State → C.State × Bool
  unfolding service_path service_address to_uint64
  etcd_register path s r =
      C.set (service_path path s) (service_address s) (to_uint64 s.ttl) (sync_cluster r).0

  unfoldable pub etcd_deregister : String → Service → C.State → C.State × Bool
  unfolding service_path
  etcd_deregister path s r = C.delete (service_path path s) (sync_cluster r).0

  unfoldable pub etcd_ping : C.State → C.State × Bool
  etcd_ping r = C.ask (sync_cluster r).0

  abbrev pub etcd : String → Registry
  etcd path = record {
    State = C.State;
    register = etcd_register path;
    deregister = etcd_deregister path;
    refresh = etcd_register path;
    services = λ r. some [];
    ping = etcd_ping;
  }

  -- Synchronising the cluster's members changes no entry.
  abbrev pub KeepsEntries : IsStore C → Type 0
  KeepsEntries S = (r : C.State) (k : String) → S.contents (sync_cluster r).0 k ≡ S.contents r k

  abbrev pub etcd-IsKeyed : (S : IsStore C) → KeepsEntries S → (path : String) → IsKeyed (etcd path)
  unfolding etcd_register etcd_deregister
  etcd-IsKeyed S keeps path = record {
    key = service_path path;
    entry = service_address;
    view = S.contents;
    register_own =
        λ s r e. S.set_own (service_path path s) (service_address s) (to_uint64 s.ttl) _ e;
    register_other = λ s r k n.
        S.set_other (service_path path s) (service_address s) (to_uint64 s.ttl) _ k n ∙ keeps r k;
    deregister_own = λ s r e. S.delete_own (service_path path s) _ e;
    deregister_other = λ s r k n. S.delete_other (service_path path s) _ k n ∙ keeps r k;
  }

-- A client at a URL, with its SyncCluster and its state
abbrev pub Cluster : Type 1
Cluster = (C : StoreClient) × (C.State → C.State × Bool) × C.State

abbrev etcd_on : String → Cluster → (R : Registry) × R.State
etcd_on path (C, sync_cluster, r) = (etcd C sync_cluster path, r)

-- The factory, over the answer for the version and the two clients; `none` is log.Fatal.
unfoldable pub etcd_new :
    (String → Option String)
    → (String → Cluster)
    → (String → Cluster)
    → Uri
    → Option ((R : Registry) × R.State)
unfolding etcd_url uses_v0_client etcd_register etcd_deregister etcd_ping
etcd_new version new_v0 new_v2 uri = elim (version (etcd_url uri <> "/version")) [
  | none ↦ none
  | some body ↦
      some (etcd_on uri.path ((if uses_v0_client body then new_v0 else new_v2) (etcd_url uri)))
]
