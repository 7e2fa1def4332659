-- ===== src/Lib.antt =====
-- rmc-fabric watches the network of a device. services/network-observation turns what the kernel and
-- lldpd report into observations and keeps a model of the device's own interfaces and of the remote
-- candidates around it; services/rmc-inventory collects named fields from sources into a versioned
-- snapshot. Their clients hear events and ask queries over D-Bus. This library models the parts that
-- keep state.
--
-- Base and Containers: strings as lists of bytes, integers, `std::set` as a sorted list without
--   repeats, and the maps as association lists. A map keeps the order of insertion, so the order of
--   iteration over a map is not modelled.
-- Model: services/network-observation/core.
--   Types: the observations, candidates, events and configuration of core/public and of
--     lib/interop_contract/network_observation/NetworkObservationTypes.hpp.
--   Policy, HardFilter, LldpUtils, Classifier: in that directory, core/policy/DefaultInterfacePolicy.cpp,
--     core/engine/HardFilter.cpp, core/LldpUtils.h, core/classifier. The policy and the classifier are
--     tables of their virtual functions, so that the engine takes any of them.
--   LocalState: core/engine/LocalStateTracker.cpp. A record of the interfaces and of the two counts
--     with their sets; one function for each method, `on_link_observation` for onLinkObservation.
--   Candidate, Events, Engine, Upkeep: core/engine/ObservationModelEngine.cpp. Candidate has what the
--     handlers do to one candidate, Events has PendingEvents and deliverPending, Engine has the handlers
--     of remote observations, Upkeep those of links and addresses and all other operations. A
--     handler holds the mutex throughout, so it is one step from an engine to an engine and the events
--     that the sink gets; the readings of the clock are arguments, `created` for a new candidate and
--     `now` for the events. Engine.Run has the histories of any such steps.
-- Netlink: services/network-observation/inputs/netlink, of it state/NetlinkState.cpp with
--   public/NetlinkTypes.h and the keys of utils/NetlinkUtils.cpp. The device callback is the device
--   event that a step returns; NetlinkState.updateFdb is `update_fdb`, and so on. Parser has the handlers
--   of parser/NetlinkParser.cpp and utils/NetlinkUtils.cpp, over the attributes that the macros of the
--   kernel's headers walk; the calls of the system are a parameter.
-- Lldp: services/network-observation/inputs/lldp/lldpd, of it LldpNeighborCache.cpp (Cache) and
--   LldpWatchSupervisor.cpp (Watch): each call is what it does under the lock, with a log of the
--   watches that get a callback or are destroyed.
-- Inventory: services/rmc-inventory/core/DefaultInventoryManager.cpp (Manager, and Sources with
--   InventorySourceUtil.cpp) and InventoryIssueUtil.cpp (Issues), with lib/interop_contract/inventory
--   (Types). A source is what its virtual functions return in one cycle. refreshAll asks the sources
--   without the lock, then merges under it: the step `merge` takes any results, and `refresh_all`
--   those of the sources that are registered.
-- Service: services/network-observation/service.
--   Mapper: NetlinkObservationMapper.cpp, from netlink events to observations. A sink is a function on
--     the state of its owner, and `make_callbacks` gives functions from event and clock to that.
--   Queue: BoundedObservationQueue.h and ObservationItem.h; Publication: PublicationQueue.h and the
--     event path of ObservationService.cpp; Issues: the issues, publication and phase of the latter.
--   Supervision: superviseLldp, reconnectLldp and reassertLldpNeighbors of
--     NetlinkLldpObservationRuntime.cpp; Callbacks: its state, and what its callbacks make of that;
--     Runtime: its start, stop, consumer and resync, over the engine, the queue and the supervision. The
--     bounded queue and the dirty set of the storage library are records of operations with records of
--     laws; the observer and the monitor are records of operations. A call of the observer has the
--     observations that it delivers in its result, and a redump the events that it calls back with: the
--     runtime pushes both into the queue before the call is over, with no turn of the consumer or of
--     the monitor's own thread in between.
-- Transports: services/network-observation/transports/dbus/NetworkObservationDbusCodec.cpp with
--   lib/interop_contract/network_observation/NetworkObservationEnumStrings.hpp. Variant is what the
--   codec uses of the variant of dbus-cxx, IsVariant what it relies on. A throw is `err` with its code.
--   Codec.Checks has the checks and field readers, Codec.Names the enumerations, Codec.Interfaces,
--   Codec.Candidates and Codec.Issues the maps, Codec.Loops the loops that build a map. Query is
--   NetworkObservationQueryHandler.cpp over the table of the query service.
-- Examples: the statements below at concrete inputs, with a concrete variant, queue and dirty set.
--
-- How they interact: the netlink and LLDP inputs make observations, which the engine admits by policy
-- and hard filter, and by the addresses that the local state tracker says are the device's own; it
-- keeps the evidence in candidates, classifies them, and tells the sink which ones became visible or
-- hidden. Between them, the mapper makes the observations and the runtime queues them; its consumer
-- hands them to the engine, and its tick repairs the LLDP observer and what the queue dropped. The
-- service marks what the engine's events name, publishes the marks to the transports, which the codec
-- serves, and keeps the issues.
--
-- Bounds and fuel: the generation of the LLDP cache and the version of the inventory are 64-bit and
-- wrap, the counts of failed reconnects and retries 32-bit; other counts, times and scores are
-- taken as unbounded, and the kernel's indices and families as not negative. Recursion is on the
-- data; only the decimal digits of a number use fuel, one more than the number, which has no more
-- digits than that. The consumer's loop runs for a given number of turns.
--
-- Not modelled: sockets, threads, files and the event loops of the inputs, with the LLDP source;
-- start and stop of the service and its worker loops; the D-Bus objects, the codec of the inventory
-- and the clients; logging and the texts of errors: they are input and output around what is
-- modelled, or calls of libraries that are not in the repository. NetlinkState's `clear`, the
-- snapshots, `getInterface`, `getPhase`, `encodeCandidateMacs`, `handleLink` and `handleAddr` are
-- defined, and no statement is about them.
pub mod Base
pub mod Containers
pub mod Model
pub mod Netlink
pub mod Lldp
pub mod Inventory
pub mod Service
pub mod Transports
pub mod Examples
