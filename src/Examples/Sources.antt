-- ===== src/Examples/Sources.antt =====
-- The watch supervisor and the netlink parser at concrete inputs.
use rmc_fabric.Base.{◌≡◌, codes, true, false, List, [], ◌∷◌, none, some, arith}
use rmc_fabric.Lldp.Watch
use rmc_fabric.Lldp.Watch.{new_supervisor}
use rmc_fabric.Lldp.Watch.Dispatch
use rmc_fabric.Netlink.Parser.{System, NeighborMessage, handle_neigh}
use rmc_fabric.Netlink.Parser.Names.{HasMac, IsKey, handle_neigh-HasMac}

-- A watch that is replaced while it is connected, and a stop.
abbrev reconnects : List Dispatch.Call
reconnects =
    Dispatch.started true true
    ∷ Dispatch.refreshed true true
    ∷ Dispatch.refreshed false true
    ∷ Dispatch.started true true
    ∷ []

dispatching-run_example :
    (Dispatch.dispatching (Dispatch.run new_supervisor reconnects).1 [] ≡ 1 ∷ [])
    × (Dispatch.is_idle (Dispatch.run new_supervisor reconnects).0 ≡ true)
unfolding Dispatch.run Dispatch.step new_supervisor Watch.start Watch.refresh
dispatching-run_example = Dispatch.dispatching-run reconnects

abbrev kernel : System
kernel = record { if_indextoname = λ n. some (codes "eth0"); inet_ntop = λ family bytes. none }

-- A bridge's forwarding entry for 02:00:00:00:00:2a.
abbrev bridge_entry : NeighborMessage
bridge_entry = record {
  header = record {
    nlmsg_len = 40;
    is_delete = false;
    attributes = record { rta_type = 2; payload = 2 ∷ 0 ∷ 0 ∷ 0 ∷ 0 ∷ 42 ∷ [] } ∷ [];
  };
  ndm_family = 7;
  ndm_ifindex = 2;
  ndm_state = 2;
}

handle_neigh-HasMac_example : HasMac IsKey (handle_neigh kernel bridge_entry []).1
handle_neigh-HasMac_example = handle_neigh-HasMac kernel bridge_entry [] (
  (omega arith, (omega arith, (omega arith, (omega arith, (omega arith, (omega arith, tt)))))),
  tt,
)
