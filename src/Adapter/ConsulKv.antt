-- ===== src/Adapter/ConsulKv.antt =====
-- consulkv/consulkv.go.
use registrator.Common.{String, ◌<>◌, true, Option, none, some, [], if◌then◌else◌, ◌==◌}
use registrator.Common.Text.{chars, text, cut}
use registrator.Bridge.Create.{tail_name}
use registrator.Bridge.World.{Registry}
use registrator.Adapter.Uri.{Uri}
use registrator.Adapter.Client.{StoreClient, IsStore, service_path, service_address}
use registrator.Adapter.Keyed.{IsKeyed}

-- The client's address and the adapter's path, as the factory reads them off; `none` is an index out
-- of range. The default address is the client's.
unfoldable pub consulkv_config : String → Uri → Option (String × String)
unfolding cut
consulkv_config default uri =
    let (socket, path) = cut b':' (chars uri.path) in
    if uri.scheme == "consulkv-unix"
    then elim path [ none ↦ none | some p ↦ some ("unix://" <> text socket, text p) ]
    else some (if uri.host == "" then default else uri.host, uri.path)

-- The adapter with `r.path[1:]`.
abbrev pub consulkv_at : StoreClient → String → Registry
consulkv_at C path = record {
  State = C.State;
  register = λ s r. C.set (service_path path s) (service_address s) 0 r;
  deregister = λ s r. C.delete (service_path path s) r;
  refresh = λ s r. (r, true);
  services = λ r. some [];
  ping = C.ask;
}

-- The adapter of a path; `none` where the path is empty, since every call of Register or Deregister
-- then panics at `r.path[1:]`.
unfoldable pub consulkv : StoreClient → String → Option Registry
unfolding tail_name
consulkv C path = elim (tail_name (chars path)) [ none ↦ none | some p ↦ some (consulkv_at C p) ]

abbrev pub consulkv-IsKeyed :
    (C : StoreClient) → IsStore C → (path : String) → IsKeyed (consulkv_at C path)
consulkv-IsKeyed C S path = record {
  key = service_path path;
  entry = service_address;
  view = S.contents;
  register_own = λ s r e. S.set_own (service_path path s) (service_address s) 0 r e;
  register_other = λ s r k n. S.set_other (service_path path s) (service_address s) 0 r k n;
  deregister_own = λ s r e. S.delete_own (service_path path s) r e;
  deregister_other = λ s r k n. S.delete_other (service_path path s) r k n;
}

-- An adapter as its factory makes it: the client, with its state, and the path.
abbrev pub ConsulKvAdapter : Type 1
ConsulKvAdapter = ((C : StoreClient) × C.State) × String

abbrev at_path : String → Option ((C : StoreClient) × C.State) → Option ConsulKvAdapter
at_path path none = none
at_path path (some client) = some (client, path)

-- The factory, over NewClient; `none` is log.Fatal or a panic.
unfoldable pub consulkv_new :
    String → (String → Option ((C : StoreClient) × C.State)) → Uri → Option ConsulKvAdapter
unfolding consulkv_config
consulkv_new default new_client uri = elim (consulkv_config default uri) [
  | none ↦ none
  | some (address, path) ↦ at_path path (new_client address)
]
