-- ===== src/Lib.antt =====
-- Registrator watches Docker and keeps the services of the containers in a registry. This library
-- models the package bridge, which is the program's core, the main program around it, the adapters
-- of the registries, and the load balancers of AWS that eureka's adapter registers in the place of
-- containers.
--
-- Parts, by the file of the repository:
--   bridge/types.go        Bridge/Types (the structs), Bridge/World (RegistryAdapter as `Registry`,
--                          and Bridge as `World`: its configuration, its lock, its two maps and the
--                          state of the registry behind it)
--   bridge/util.go         Bridge/Tags (recParseEscapedComma, combineTags), Bridge/Metadata
--                          (mapDefault, lookupMetaData, serviceMetaData), Bridge/Port (servicePort)
--   bridge/bridge.go       Bridge/Create and Create/Fields (newService), Bridge/Tracking
--                          (deleteDeadContainer, appendService), Bridge/Add (add), Bridge/Remove
--                          (remove, shouldRemove, Refresh, PruneDeadContainers), Bridge/ServiceId
--                          (serviceIDPattern)
--   bridge/servicesync.go  Bridge/Sync (reregisterService, cleanupServices, serviceSync, channelRun,
--                          and `step`, one call of a method)
--   bridge/util.go and     Program/Lookup (GetIPFromExternalSource), Program/Address (ipRegEx),
--   registrator.go         Program/Settings (main, from the flags to the configuration),
--                          Program/Connect (the loop around Ping), Program/Events (the event loop
--                          and resyncProcess, whose results are calls of Bridge/Sync)
--   bridge/bridge.go, New  Program/Start (New); Program/Loop has main as a whole, and
--                          Program/Concurrent has it with its goroutines
--   goroutines             Bridge/Threads: the calls of a bridge as threads, and a step relation over
--                          the world that they share
--   bridge/extpoints.go    Adapter/Factories (lookup, all, register, unregister, Register, Unregister)
--   modules.go, init       Adapter/Table (the packages, the schemes that each registers, and the
--                          extension point behind their initialisation); Program/Adapters puts
--                          New on top of it
--   logging/logging.go     Program/Levels (Configure and getEnvLogLevel)
--   consul/consul.go       Adapter/Consul (New, buildCheck, Register, Deregister, Services, Ping)
--   consulkv/, etcd/,      Adapter/ConsulKv, Adapter/Etcd, Adapter/Skydns and Skydns/Domain
--   skydns2/               (domainPath), over the client of Adapter/Client; Adapter/Keyed is the
--                          interface that the three fill and what follows from it for a bridge
--   zookeeper/zookeeper.go Adapter/Zookeeper
--   aws/cache.go           Aws/Cache (GetAndCache)
--   aws/metadata.go        Aws/Metadata (GetMetadata, SetMetadata, retrieveMetadata)
--   aws/healthchecks.go    Aws/Health (GetHealthyTargets, determineNewEurekaStatus, testHealth)
--   aws/elb.go and         Aws/Flags (CheckELBFlags, CheckELBOnlyReg), Aws/Api (the answers of AWS),
--   aws/structs.go         Aws/Services (lookupServiceName), Aws/Groups (getAllTargetGroups),
--                          Aws/Lookup and Lookup/Run (getLoadBalancerFromService,
--                          getELBAndCacheDetails, GetELBV2ForContainer), Aws/Registration
--                          (getELBMetadata, mutateRegistrationInfo, RegisterWithELBv2,
--                          HeartbeatELBv2)
--   eureka/eureka.go       Eureka (instanceInformation), Eureka/Calls (Register, Deregister, Refresh,
--                          Services, Ping), Aws/Instance (fargo's instance, GetUniqueID)
-- Bridge/Env has what the package asks of Docker, of the resolver and of the host: parameters, since
-- their code is that of others. Bridge/Ensures states what holds where a method ends.
-- The modules below these, such as Tags/Laws or Sync/Invariant, hold the proofs; Examples runs the
-- definitions on concrete containers.
--
-- A method takes the world and returns an `Outcome`: a new world, `blocked` where a Lock never
-- returns, `panic` where a slice is out of range, a map is nil or an index is, and `exit` for
-- log.Fatal. The calls that a synchronisation starts with `go` are returned as a list. There are two
-- views of the calls. In Bridge/Sync and Program/Loop each call runs to its end when its turn comes.
-- In Bridge/Threads and Program/Concurrent a call is a thread that stops between its sections under
-- the lock and before and behind each registration, so that other threads go on in between, in any
-- order, with answers of Docker that may be others at each step; Threads/Alone relates the two. A map
-- is an association list, and the loops over a map run over its entries in the order of the list, so
-- that a theorem for every list is one for every order.
--
-- Bounds: recParseEscapedComma and its loop run on fuel, the length of the text and one more, which
-- is enough since every round is on a shorter text (Tags/Laws shows that the fuel never runs out).
-- The loop around Ping has fuel, since a number of retries of -1 lets it run for ever; one round for
-- each attempt is enough. The loop of domainPath has as much fuel as there are parts, and that over
-- the pages of the target groups one round for each page, since AWS may always have another one;
-- Skydns/Domain and Groups show what is enough. All other loops are recursions on a list or on a
-- number of attempts.
--
-- The look-ups of a load balancer return a `Looked`, which tells an error from a dereference of nil.
-- What AWS and eureka answer, and the caches, are parameters, so what a lookup finds is stated for all
-- answers, and the attempts of a registration may each get other ones.
--
-- Not modelled: log lines, with the slices to twelve bytes that are made for them of the id of a
-- container that an event or a listing names, but not of an id in a network mode; the registry calls
-- of one section under the lock, which are one step and not interleaved with those of other threads;
-- the mutex of a service, which no call keeps; upper and lower case beyond ASCII; the channel
-- behind PushServiceSync, so that a synchronisation may begin at any time; the durations of
-- the timers and waits; the making of the clients of AWS; the parsing of a URI and the JSON of a
-- znode, whose parts are values; and nil among the entries of AWS's answers.
-- The cache of a third party is a parameter; its entries' times are not modelled, so what is stated
-- of it holds while they live, and so do the lifetimes of the entries of a store.
pub mod Common
pub mod Bridge
pub mod Program
pub mod Aws
pub mod Eureka
pub mod Adapter
mod Examples
