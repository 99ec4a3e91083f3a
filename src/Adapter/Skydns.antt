-- ===== src/Adapter/Skydns.antt =====
-- skydns2/skydns2.go.
pub mod Domain
use registrator.Common.{
  ℕ, ◌≡◌, ◌≢◌, refl, ◌∙◌, String, ◌<>◌, Bool, true, false, Option, none, some, List, [], ◌∷◌,
  if◌then◌else◌, ◌==◌, ltb, length,
}
use registrator.Common.Text.{chars, text}
use registrator.Common.Decimal.{itoa, to_uint64}
use registrator.Bridge.Types.{Service}
use registrator.Bridge.World.{Registry}
use registrator.Adapter.Uri.{Uri}
use registrator.Adapter.Client.{StoreClient, IsStore, service_path}
use registrator.Adapter.Keyed.{IsKeyed}
use registrator.Adapter.Skydns.Domain.{domain_path}

-- The adapter's path; the outer `none` is log.Fatal for a path of less than two bytes, which is one
-- that is empty or a slash alone, as a path starts with a slash.
unfoldable pub skydns_path : Uri → Option String
unfolding domain_path
skydns_path uri = elim (chars uri.path) [
  | [] ↦ none
  | c ∷ [] ↦ none
  | c ∷ d ∷ s ↦ domain_path (text (d ∷ s))
]

unfoldable pub skydns_record : Service → String
unfolding itoa
skydns_record s = "{\"host\":\"" <> (s.ip <> ("\",\"port\":" <> (itoa s.port <> "}")))

abbrev pub skydns : StoreClient → String → Registry
skydns C path = record {
  State = C.State;
  register = λ s r. C.set (service_path path s) (skydns_record s) (to_uint64 s.ttl) r;
  deregister = λ s r. C.delete (service_path path s) r;
  refresh = λ s r. C.set (service_path path s) (skydns_record s) (to_uint64 s.ttl) r;
  services = λ r. some [];
  ping = C.ask;
}

abbrev pub skydns-IsKeyed :
    (C : StoreClient) → IsStore C → (path : String) → IsKeyed (skydns C path)
skydns-IsKeyed C S path = record {
  key = service_path path;
  entry = skydns_record;
  view = S.contents;
  register_own = λ s r e. S.set_own (service_path path s) (skydns_record s) (to_uint64 s.ttl) r e;
  register_other =
      λ s r k n. S.set_other (service_path path s) (skydns_record s) (to_uint64 s.ttl) r k n;
  deregister_own = λ s r e. S.delete_own (service_path path s) r e;
  deregister_other = λ s r k n. S.delete_other (service_path path s) r k n;
}

unfoldable pub skydns_urls : Uri → List String
skydns_urls uri = if uri.host == "" then [] else ("http://" <> uri.host) ∷ []

abbrev skydns_at : String → (C : StoreClient) × C.State → (R : Registry) × R.State
skydns_at path (C, r) = (skydns C path, r)

-- The factory, over NewClient; `none` is log.Fatal.
unfoldable pub skydns_new :
    (List String → (C : StoreClient) × C.State) → Uri → Option ((R : Registry) × R.State)
unfolding skydns_path skydns_urls skydns_record
skydns_new new_client uri = elim (skydns_path uri) [
  | none ↦ none
  | some path ↦ some (skydns_at path (new_client (skydns_urls uri)))
]
