-- ===== src/Bridge/Metadata/Laws.antt =====
-- What serviceMetaData of bridge/util.go collects, whatever the order in which the map is visited.
use registrator.Common.{
  ◌≡◌, ◌≢◌, refl, ◌∙◌, String, true, false, none, some, [], ◌∷◌, ◌++◌, eq_iff, eq_self, All, arith,
}
use registrator.Common.Map.{Map, get, get_or, get-put, get_or-put}
use registrator.Bridge.Metadata.{
  Target, ignored, generic, specific, target, Collected, collect_target, collect_entries,
  service_meta_data, nothing_collected,
}

-- The target neither is nor sets the key.
abbrev Misses : String → Target → Type 0
Misses k ignored = Unit
Misses k (generic key) = key ≢ k
Misses k (specific key rest) = rest ≢ k

-- The target is no value for this port with the key `k`.
abbrev NotSpecific : String → Target → Type 0
NotSpecific k ignored = Unit
NotSpecific k (generic key) = Unit
NotSpecific k (specific key rest) = rest ≢ k

-- A value for this port with the key `k` is `v`.
abbrev SpecificIs : String → String → Target → String → Type 0
SpecificIs k v (specific key rest) w = rest ≡ k → w ≡ v
SpecificIs k v _ w = Unit

abbrev GenericIs : String → String → Target → String → Type 0
GenericIs k v (generic key) w = key ≡ k → w ≡ v
GenericIs k v _ w = Unit

module _ (port : String) where
  abbrev AllTargets : (Target → Type 0) → Map String → Type 0
  AllTargets P = All (λ e. P (target port e.0))

  abbrev AllEntries : (Target → String → Type 0) → Map String → Type 0
  AllEntries P = All (λ e. P (target port e.0) e.1)

-- A round leaves alone what its target misses.
collect_target-Misses :
    (k : String) (c : Collected) (t : Target) (v : String)
    → Misses k t
    → (get k (collect_target c t v).values ≡ get k c.values)
      × (get_or false k (collect_target c t v).from_port ≡ get_or false k c.from_port)
unfolding collect_target
collect_target-Misses k c ignored v h = (refl, refl)
collect_target-Misses k c (generic key) v h = ground (arith, get-put key k v c.values, eq_iff key k)
collect_target-Misses k c (specific key rest) v h =
    ground
      (arith, get-put rest k v c.values, get_or-put false rest k true c.from_port, eq_iff rest k)

collect_target-NotSpecific :
    (k : String) (c : Collected) (t : Target) (v : String)
    → NotSpecific k t
    → get_or false k (collect_target c t v).from_port ≡ get_or false k c.from_port
unfolding collect_target
collect_target-NotSpecific k c ignored v h = refl
collect_target-NotSpecific k c (generic key) v h = ground arith
collect_target-NotSpecific k c (specific key rest) v h =
    ground (arith, get_or-put false rest k true c.from_port, eq_iff rest k)

-- Once a value for the port is in, it stays.
collect_target-kept :
    (k v : String) (c : Collected) (t : Target) (w : String)
    → SpecificIs k v t w
    → get_or false k c.from_port ≡ true
    → get k c.values ≡ some v
    → (get k (collect_target c t w).values ≡ some v)
      × (get_or false k (collect_target c t w).from_port ≡ true)
unfolding collect_target
collect_target-kept k v c ignored w h f e = (e, f)
collect_target-kept k v c (generic key) w h f e =
    ground (arith, get-put key k w c.values, eq_iff key k)
collect_target-kept k v c (specific key rest) w h f e =
    ground
      (arith, get-put rest k w c.values, get_or-put false rest k true c.from_port, eq_iff rest k)

module _ (port k : String) where
  collect_entries-append :
      (c : Collected) (xs ys : Map String)
      → collect_entries port c (xs ++ ys) ≡ collect_entries port (collect_entries port c xs) ys
  unfolding collect_entries
  collect_entries-append c [] ys = refl
  collect_entries-append c ((ks, kv) ∷ xs) ys =
      collect_entries-append (collect_target c (target port ks) kv) xs ys

  collect_entries-Misses :
      (c : Collected) (meta : Map String)
      → AllTargets port (Misses k) meta
      → (get k (collect_entries port c meta).values ≡ get k c.values)
        × (get_or false k (collect_entries port c meta).from_port ≡ get_or false k c.from_port)
  unfolding collect_entries
  collect_entries-Misses c [] h = (refl, refl)
  collect_entries-Misses c ((ks, kv) ∷ meta) (h, hs) =
      let (e, f) = collect_target-Misses k c (target port ks) kv h in
      let (e', f') = collect_entries-Misses (collect_target c (target port ks) kv) meta hs in
      (e' ∙ e, f' ∙ f)

  collect_entries-NotSpecific :
      (c : Collected) (meta : Map String)
      → AllTargets port (NotSpecific k) meta
      → get_or false k (collect_entries port c meta).from_port ≡ get_or false k c.from_port
  unfolding collect_entries
  collect_entries-NotSpecific c [] h = refl
  collect_entries-NotSpecific c ((ks, kv) ∷ meta) (h, hs) =
      collect_entries-NotSpecific (collect_target c (target port ks) kv) meta hs
      ∙ collect_target-NotSpecific k c (target port ks) kv h

  collect_entries-kept :
      (v : String) (c : Collected) (meta : Map String)
      → AllEntries port (SpecificIs k v) meta
      → get_or false k c.from_port ≡ true
      → get k c.values ≡ some v
      → (get k (collect_entries port c meta).values ≡ some v)
        × (get_or false k (collect_entries port c meta).from_port ≡ true)
  unfolding collect_entries
  collect_entries-kept v c [] h f e = (e, f)
  collect_entries-kept v c ((ks, kv) ∷ meta) (h, hs) f e =
      let (e', f') = collect_target-kept k v c (target port ks) kv h f e in
      collect_entries-kept v (collect_target c (target port ks) kv) meta hs f' e'

  -- With no value for the port, the last generic one stays.
  collect_target-generic :
      (v : String) (c : Collected) (t : Target) (w : String)
      → NotSpecific k t
      → GenericIs k v t w
      → get k c.values ≡ some v
      → get k (collect_target c t w).values ≡ some v
  unfolding collect_target
  collect_target-generic v c ignored w n h e = e
  collect_target-generic v c (generic key) w n h e =
      ground (arith, get-put key k w c.values, eq_iff key k)
  collect_target-generic v c (specific key rest) w n h e =
      ground (arith, get-put rest k w c.values, eq_iff rest k)

  collect_entries-generic :
      (v : String) (c : Collected) (meta : Map String)
      → AllTargets port (NotSpecific k) meta
      → AllEntries port (GenericIs k v) meta
      → get k c.values ≡ some v
      → get k (collect_entries port c meta).values ≡ some v
  unfolding collect_entries
  collect_entries-generic v c [] n h e = e
  collect_entries-generic v c ((ks, kv) ∷ meta) (n, ns) (h, hs) e =
      collect_entries-generic v (collect_target c (target port ks) kv) meta ns hs
        (collect_target-generic v c (target port ks) kv n h e)

collect_specific :
    (full k v : String) (c : Collected)
    → get_or false full c.from_port ≡ false
    → (get k (collect_target c (specific full k) v).values ≡ some v)
      × (get_or false k (collect_target c (specific full k) v).from_port ≡ true)
unfolding collect_target
collect_specific full k v c h =
    ground (arith, get-put k k v c.values, get_or-put false k k true c.from_port, eq_self k)

collect_generic :
    (k v : String) (c : Collected)
    → get_or false k c.from_port ≡ false
    → get k (collect_target c (generic k) v).values ≡ some v
unfolding collect_target
collect_generic k v c h = ground (arith, get-put k k v c.values, eq_self k)

-- A value for the port decides its key, wherever the map's order puts it: generic values before it
-- are overwritten and those after it are skipped. The entries that come after it hold no other
-- value for the port with that key, and no entry before it is a value for the port whose key is
-- the whole of this one's, port included.
pub service_meta_data_specific :
    (port k full ks v : String) (before after : Map String)
    → target port ks ≡ specific full k
    → AllTargets port (NotSpecific full) before
    → AllEntries port (SpecificIs k v) after
    → (get k (service_meta_data port (before ++ (ks, v) ∷ after)).values ≡ some v)
      × (get_or false k (service_meta_data port (before ++ (ks, v) ∷ after)).from_port ≡ true)
unfolding service_meta_data collect_entries get_or
service_meta_data_specific port k full ks v before after t h hs =
    let c = collect_entries port nothing_collected before in
    let (e, f) = collect_specific full k v c (collect_entries-NotSpecific port full _ before h) in
    rw
      (collect_entries-append port k nothing_collected before ((ks, v) ∷ after), collect_entries, t)
      (collect_entries-kept port k v (collect_target c (specific full k) v) after hs f e)

-- Where no entry is a value for the port with the key, and no later generic entry of the key has
-- another value, the value of a generic entry is taken, and the key does not count as set for the
-- port.
service_meta_data_generic :
    (port k ks v : String) (before after : Map String)
    → target port ks ≡ generic k
    → AllTargets port (NotSpecific k) before
    → AllTargets port (NotSpecific k) after
    → AllEntries port (GenericIs k v) after
    → (get k (service_meta_data port (before ++ (ks, v) ∷ after)).values ≡ some v)
      × (get_or false k (service_meta_data port (before ++ (ks, v) ∷ after)).from_port ≡ false)
unfolding service_meta_data collect_entries get_or
service_meta_data_generic port k ks v before after t n n' h =
    let c = collect_entries port nothing_collected before in
    let f = collect_entries-NotSpecific port k nothing_collected before n in
    rw
      (collect_entries-append port k nothing_collected before ((ks, v) ∷ after), collect_entries, t)
      (
        collect_entries-generic port k v (collect_target c (generic k) v) after n' h
            (collect_generic k v c f),
        collect_entries-NotSpecific port k (collect_target c (generic k) v) after n'
            ∙ collect_target-NotSpecific k c (generic k) v tt
            ∙ f,
      )

-- A key that no entry sets is missing.
service_meta_data_missing :
    (port k : String) (meta : Map String)
    → AllTargets port (Misses k) meta
    → (get k (service_meta_data port meta).values ≡ none)
      × (get_or false k (service_meta_data port meta).from_port ≡ false)
unfolding service_meta_data get get_or
service_meta_data_missing port k meta h = collect_entries-Misses port k nothing_collected meta h
