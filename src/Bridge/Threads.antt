-- ===== src/Bridge/Threads.antt =====
-- The calls of a Bridge as threads (bridge/bridge.go, bridge/servicesync.go). A thread's step is one
-- section under the lock, or the part between two of them up to its next call of the registry. The
-- registry calls of one section are not interleaved with those of other threads.
pub mod Locking
pub mod Release
pub mod Descent
pub mod Sections
pub mod Syncing
pub mod Sound
pub mod Kept
pub mod Ending
pub mod AloneAdd
pub mod Alone
pub mod Races
use registrator.Common.{
  String, Bool, true, none, some, Option, List, [], ◌∷◌, ◌++◌, map, ◌≡◌, if◌then◌else◌,
}
use registrator.Common.Map.{Map}
use registrator.Bridge.Types.{Container, ServicePort, Service, SyncMessage}
use registrator.Bridge.Env.{Env, Inspected, found, no_such_container, inspect_error}
use registrator.Bridge.World.{Registry, World, Outcome, ok, panic, ◌>>=◌, lock, unlock}
use registrator.Bridge.Create.{Created, created, declined, panicked, new_service}
use registrator.Bridge.Tracking.{is_nil, services_of, delete_dead_container, append_service}
use registrator.Bridge.Add.{container_ports, wanted_ports, is_group_of}
use registrator.Bridge.Remove.{should_remove, remove, prune_dead_containers}
use registrator.Bridge.Sync.{
  Call, add_call, remove_call, remove_on_exit_call, refresh_call, prune_call, sync_call,
  synchronise,
}

-- Where a thread stands, with the local variables that it still reads.
pub data Thread : Type 0 where
  reviving : (id new_ip : String) → Thread  -- `add`, before deleteDeadContainer
  checking : (id new_ip : String) → Thread  -- before the Lock of `add`
  inspecting : (id new_ip : String) → Thread  -- behind its Unlock
  registering : Container → Bool → List ServicePort → Thread  -- at the head of its last loop
  appending : Service → Container → Bool → List ServicePort → Thread  -- before appendService
  deciding : (id : String) → Thread  -- RemoveOnExit, before shouldRemove
  removing : (id : String) → Bool → Thread  -- `remove`
  copying : Thread  -- Refresh, before getServicesCopy
  refreshing : List Service → Thread  -- at the head of its loops
  pruning : Thread  -- PruneDeadContainers
  synchronising : SyncMessage → Thread  -- a round of channelRun

unfoldable pub spawn : Call → Thread
spawn (add_call id new_ip) = reviving id new_ip
spawn (remove_call id) = removing id true
spawn (remove_on_exit_call id) = deciding id
spawn refresh_call = copying
spawn prune_call = pruning
spawn (sync_call message) = synchronising message

-- The services of the copy, in the order of the loops of Refresh.
unfoldable pub copied : Map (List Service) → List Service
copied [] = []
copied ((id, ss) ∷ m) = ss ++ copied m

-- What a step leaves: the world, and the thread as it goes on with those that it starts.
abbrev Next : Type 0 → Type 0
Next S = Outcome (World S × List Thread)

module _ {S : Type 0} where
  abbrev pub leaving : List Thread → World S → Next S
  leaving ts w = ok (w, ts)

  -- The early return of `add` is behind its Lock.
  abbrev pub checked : String → String → World S → Next S
  checked id new_ip w =
      if is_nil (services_of id w) then ok (unlock w, inspecting id new_ip ∷ []) else ok (w, [])

  abbrev pub with_wanted : Container → World S → Option (List ServicePort) → Next S
  with_wanted c w none = panic
  with_wanted c w (some ports) = ok (w, registering c (is_group_of ports) ports ∷ [])

  unfoldable pub inspect_ports : Env → String → World S → Inspected → Next S
  unfolding wanted_ports container_ports
  inspect_ports env new_ip w (found c) =
      with_wanted c w (wanted_ports w.config c (container_ports env c new_ip))
  inspect_ports env new_ip w no_such_container = ok (w, [])
  inspect_ports env new_ip w inspect_error = ok (w, [])

  abbrev pub with_calls : World S × List Call → Next S
  with_calls (w, calls) = ok (w, map spawn calls)

module _ (R : Registry) (env : Env) where
  abbrev pub after_register :
      Service → Container → Bool → List ServicePort → World R.State → R.State × Bool → Next R.State
  after_register s c is_group ports w (r, registered) =
      let goes_on = registering c is_group ports in
      ok (
        record w { registry = r },
        (if registered then appending s c is_group ports else goes_on) ∷ [],
      )

  -- A round of the last loop of `add`, up to appendService.
  unfoldable pub register_next :
      Container → Bool → List ServicePort → World R.State → Created → Next R.State
  register_next c is_group ports w panicked = panic
  register_next c is_group ports w declined = ok (w, registering c is_group ports ∷ [])
  register_next c is_group ports w (created s) =
      after_register s c is_group ports w (R.register s w.registry)

  unfoldable pub next : Thread → World R.State → Next R.State
  unfolding delete_dead_container append_service remove prune_dead_containers synchronise
      should_remove inspect_ports register_next new_service copied
  next (reviving id new_ip) w = delete_dead_container id w >>= leaving (checking id new_ip ∷ [])
  next (checking id new_ip) w = lock w >>= checked id new_ip
  next (inspecting id new_ip) w = inspect_ports env new_ip w (env.inspect id)
  next (registering c is_group []) w = ok (w, [])
  next (registering c is_group (port ∷ ports)) w =
      register_next c is_group ports w (new_service env w.config c port is_group)
  next (appending s c is_group ports) w =
      append_service c.id s w >>= leaving (registering c is_group ports ∷ [])
  next (deciding id) w = ok (w, removing id (should_remove env w.config id) ∷ [])
  next (removing id deregister) w = remove R env id deregister w >>= leaving []
  next copying w = lock w >>= λ w. ok (unlock w, refreshing (copied w.services) ∷ [])
  next (refreshing []) w = ok (w, [])
  next (refreshing (s ∷ ss)) w =
      ok (record w { registry = (R.refresh s w.registry).0 }, refreshing ss ∷ [])
  next pruning w = prune_dead_containers w >>= leaving []
  next (synchronising message) w = synchronise R env message w >>= with_calls

pub record System (S : Type 0) : Type 0 where
  pub world : World S
  pub threads : List Thread

-- A call begins, or a thread makes a step; what Docker answers is one of the possible answers at the
-- time. A thread whose step is `blocked` has none.
module _ (R : Registry) (Possible : Env → Type 0) where
  pub data Step (s : System R.State) : System R.State → Type 0 where
    begin : (c : Call) → Step s (record s { threads = spawn c ∷ s.threads })
    move :
        (env : Env) (before : List Thread) (t : Thread) (after ts : List Thread) (w : World R.State)
        → Possible env
        → s.threads ≡ before ++ t ∷ after
        → next R env t s.world ≡ ok (w, ts)
        → Step s (record { world = w; threads = before ++ ts ++ after })

  pub data Steps (s : System R.State) : System R.State → Type 0 where
    done : Steps s s
    before_last : {t u : System R.State} → Steps s t → Step t u → Steps s u
