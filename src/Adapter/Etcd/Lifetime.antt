-- ===== src/Adapter/Etcd/Lifetime.antt =====
-- The lifetime that etcd/etcd.go passes on with an entry: the service's ttl as an unsigned number, 0
-- being no expiry.
use registrator.Common.{ℕ, suc, ◌+◌, ◌^◌, ◌<◌, ◌≤◌, ◌≡◌, refl, String, Bool, arith}
use registrator.Common.Int.{ℤ, pos, negsuc}
use registrator.Common.Decimal.{to_uint64}
use registrator.Bridge.Types.{Service}
use registrator.Adapter.Client.{StoreClient, service_path, service_address}
use registrator.Adapter.Etcd.{etcd_register}

-- A 64-bit int.
abbrev Is64 : ℤ → Type 0
Is64 (pos n) = n < 2 ^ 63
Is64 (negsuc n) = n < 2 ^ 63

-- The lifetime that is passed on: the seconds of a ttl that is not negative, and of a negative one
-- what it is short of 2 ^ 64.
abbrev pub Lasts : ℤ → ℕ → Type 0
Lasts (pos n) lifetime = lifetime ≡ n
Lasts (negsuc n) lifetime = (lifetime + suc n ≡ 2 ^ 64) × (2 ^ 63 ≤ lifetime)

to_uint64_lem : (v : ℤ) → Is64 v → (to_uint64 v < 2 ^ 64) × Lasts v (to_uint64 v)
unfolding to_uint64
to_uint64_lem (pos n) h = (omega arith, omega arith)
to_uint64_lem (negsuc n) h = (omega arith, (omega arith, omega arith))

-- For a service whose ttl is a 64-bit int, Register is the call of Set with the service's key and
-- address and with a number below 2 ^ 64 as the lifetime: the ttl, if that is not negative, so 0,
-- which the store takes for no expiry, at 0; and 2 ^ 64 less what the ttl is below zero otherwise,
-- which is 2 ^ 63 or more.
pub etcd_register_lifetime :
    (C : StoreClient) (sync_cluster : C.State → C.State × Bool) (path : String) (s : Service)
    (r : C.State)
    → Is64 s.ttl
    → (lifetime : ℕ) × (etcd_register C sync_cluster path s r
        ≡ C.set (service_path path s) (service_address s) lifetime (sync_cluster r).0)
      × (lifetime < 2 ^ 64)
      × Lasts s.ttl lifetime
unfolding etcd_register
etcd_register_lifetime C sync_cluster path s r h =
    let (bound, lasts) = to_uint64_lem s.ttl h in (to_uint64 s.ttl, refl, bound, lasts)
