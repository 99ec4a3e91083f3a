-- ===== src/Bridge/Sync.antt =====
-- reregisterService, cleanupServices and serviceSync of bridge/servicesync.go, and the calls that the
-- program makes of a bridge, one after the other.
pub mod Locking
pub mod Consistency
pub mod Adding
pub mod Invariant
pub mod Spawned
pub mod Cleanup
pub mod Moving
use registrator.Common.{
  String, Bool, true, false, ◌&&◌, not, Option, none, some, List, [], ◌∷◌, ◌++◌, if◌then◌else◌,
  ◌==◌,
}
use registrator.Common.Map.{Map, get_or, put}
use registrator.Common.Text.{chars, text}
use registrator.Bridge.Types.{Service, ServicePort, SyncMessage}
use registrator.Bridge.Env.{Env}
use registrator.Bridge.ServiceId.{find_service_id}
use registrator.Bridge.World.{
  Registry, World, Outcome, ok, blocked, panic, exit, ◌>>=◌, lock, unlock,
}
use registrator.Bridge.Tracking.{is_nil, services_of}
use registrator.Bridge.Create.{tail_name}
use registrator.Bridge.Add.{add}
use registrator.Bridge.Remove.{remove, remove_on_exit, refresh, prune_dead_containers}

-- A call of a method: those that the event loop and the timers make, and those that a
-- synchronisation starts.
pub data Call : Type 0 where
  add_call : String → String → Call
  remove_call : String → Call
  remove_on_exit_call : String → Call
  refresh_call : Call
  prune_call : Call
  sync_call : SyncMessage → Call

-- Writes the new address into the service, as it is registered again.
abbrev pub moved : Service → String → Service
moved s ip = record s { ip = ip; origin = record s.origin { host_ip = ip } }

module _ (R : Registry) where
  -- reregisterService: the service as it is left, and the registry. A failed deregistration leaves
  -- both alone but for what the registry itself did.
  unfoldable pub reregister_service : Service → String → R.State → Service × R.State
  reregister_service s new_ip r =
      if new_ip == ""
      then (s, (R.register s r).0)
      else if s.ip == new_ip
      then (s, r)
      else let (r', deregistered) = R.deregister s r in
        if deregistered then (moved s new_ip, (R.register (moved s new_ip) r').0) else (s, r')

  unfoldable pub reregister_services : List Service → String → R.State → List Service × R.State
  unfolding reregister_service
  reregister_services [] new_ip r = ([], r)
  reregister_services (s ∷ ss) new_ip r =
      let (s', r') = reregister_service s new_ip r in
      let (ss', r'') = reregister_services ss new_ip r' in (s' ∷ ss', r'')

  -- The first loop of serviceSync: tracked services are registered again, and a container without any
  -- is to be added. The last argument are the calls started so far.
  unfoldable pub sync_listings :
      String → List String → World R.State → List Call → World R.State × List Call
  unfolding reregister_services get_or put
  sync_listings new_ip [] w calls = (w, calls)
  sync_listings new_ip (id ∷ ids) w calls =
      let (ss, r) = reregister_services (services_of id w) new_ip w.registry in
      if is_nil (services_of id w)
      then sync_listings new_ip ids w (calls ++ add_call id new_ip ∷ [])
      else sync_listings new_ip ids (record w { services = put id ss w.services; registry = r })
          calls

-- The containers with services that are not among the listed ones are to be removed.
unfoldable pub contains_id : String → List String → Bool
contains_id id [] = false
contains_id id (j ∷ ids) = if id == j then true else contains_id id ids

unfoldable pub stale_calls : List String → Map (List Service) → List Call
unfolding contains_id
stale_calls ids [] = []
stale_calls ids ((id, ss) ∷ m) =
    let rest = stale_calls ids m in
    if contains_id id ids then rest else remove_on_exit_call id ∷ rest

-- Whether a container name, without its slash, is the one meant; `none` is a slice out of range.
abbrev name_is : String → Option String → Option Bool
name_is name none = none
name_is name (some n) = some (name == n)

-- The two inner loops of cleanupServices: whether a service with this name, of a container with this
-- name, is tracked. They stop at the first.
unfoldable pub tracks_service : String → String → List Service → Option Bool
unfolding tail_name
tracks_service name container [] = some false
tracks_service name container (s ∷ ss) =
    let rest = tracks_service name container ss in
    if s.name == name
    then elim (name_is container (tail_name (chars s.origin.container_name))) [
      | none ↦ none
      | some true ↦ some true
      | some false ↦ rest
    ]
    else rest

unfoldable pub tracks : String → String → Map (List Service) → Option Bool
unfolding tracks_service
tracks name container [] = some false
tracks name container ((id, ss) ∷ m) =
    let rest = tracks name container m in
    elim (tracks_service name container ss) [
      | none ↦ none
      | some true ↦ some true
      | some false ↦ rest
    ]

-- Whether cleanupServices deregisters a service that the registry lists; `none` is a panic.
abbrev is_dangling_id :
    String → Map (List Service) → Service → Option (String × String) → Option Bool
is_dangling_id hostname services s none = some false
is_dangling_id hostname services s (some (host, container)) =
    if host == hostname
    then elim (tracks s.name container services) [ none ↦ none | some b ↦ some (not b) ]
    else some false

unfoldable pub is_dangling : String → Map (List Service) → Service → Option Bool
unfolding find_service_id tracks
is_dangling hostname services s = is_dangling_id hostname services s (find_service_id s.id)

module _ (R : Registry) (env : Env) where
  -- cleanupServices; a deregistration that fails is logged.
  unfoldable pub cleanup_services : Map (List Service) → List Service → R.State → Outcome R.State
  unfolding is_dangling
  cleanup_services services [] r = ok r
  cleanup_services services (s ∷ ss) r = elim (is_dangling env.hostname services s) [
    | none ↦ panic
    | some true ↦ cleanup_services services ss (R.deregister s r).0
    | some false ↦ cleanup_services services ss r
  ]

  -- The second half of serviceSync, with the calls started so far.
  abbrev pub with_registry :
      World R.State → List Call → Outcome R.State → Outcome (World R.State × List Call)
  with_registry w calls (ok r) = ok (record w { registry = r }, calls)
  with_registry w calls blocked = blocked
  with_registry w calls panic = panic
  with_registry w calls exit = exit

  abbrev clean_listed :
      World R.State → List Call → Option (List Service) → Outcome (World R.State × List Call)
  clean_listed w calls none = ok (w, calls)
  clean_listed w calls (some listed) =
      with_registry w calls (cleanup_services w.services listed w.registry)

  unfoldable pub clean_up : World R.State → List Call → Outcome (World R.State × List Call)
  unfolding cleanup_services stale_calls
  clean_up w calls = elim env.non_exited_ids [
    | none ↦ ok (w, calls)
    | some ids ↦ clean_listed w (calls ++ stale_calls ids w.services) (R.services w.registry)
  ]

  -- serviceSync, under the lock. With no list of containers a quiet one does nothing and any other
  -- ends the process.
  unfoldable pub service_sync : SyncMessage → World R.State → Outcome (World R.State × List Call)
  unfolding sync_listings clean_up
  service_sync message w = elim env.running_ids [
    | none ↦ if message.quiet then ok (w, []) else exit
    | some ids ↦
        let (w', calls) = sync_listings R message.ip ids w [] in
        if w.config.cleanup then clean_up w' calls else ok (w', calls)
  ]

  -- A round of channelRun.
  unfoldable pub synchronise : SyncMessage → World R.State → Outcome (World R.State × List Call)
  unfolding service_sync
  synchronise message w = do w ← lock w; (w', calls) ← service_sync message w; ok (unlock w', calls)

  abbrev no_calls : World R.State → Outcome (World R.State × List Call)
  no_calls w = ok (w, [])

  -- A call of a method, with the calls that it starts.
  unfoldable pub step : Call → World R.State → Outcome (World R.State × List Call)
  unfolding add remove remove_on_exit refresh prune_dead_containers synchronise
  step (add_call id ip) w = add R env id ip w >>= no_calls
  step (remove_call id) w = remove R env id true w >>= no_calls
  step (remove_on_exit_call id) w = remove_on_exit R env id w >>= no_calls
  step refresh_call w = refresh R env w >>= no_calls
  step prune_call w = prune_dead_containers w >>= no_calls
  step (sync_call message) w = synchronise message w
