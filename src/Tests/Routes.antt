-- ===== src/Tests/Routes.antt =====
-- The results on routes at concrete inputs.
use tao_p4code.Base.{
  true, negsuc, ◌≡◌, pos, is_neg, none, some, [], ◌∷◌, arith, refl, if◌then◌else◌, update, ◌==◌,
}
use tao_p4code.Types.{FibNhop}
use tao_p4code.World.{World, ok, fault, Returns, shc_hal_call}
use tao_p4code.Route.Lookup.{ntb_route_lookup}
use tao_p4code.Route.Lookup.Requests.{flow_request, hop_request, ntb_route_lookup-requests}
use tao_p4code.Route.Nhop.{nhop_of}
use tao_p4code.Demo.{a_prefix, demo_env, demo_dp, start, none_ne_some, blackhole}
use tao_p4code.Types.{rt_default, rt_mroute}
use tao_p4code.Route.Update.{ntb_route_nhop_insert}
use tao_p4code.Route.Update.Fresh.{Inserted, ntb_route_nhop_insert-Inserted}
use tao_p4code.Route.Result.{fib_res_obj_create}
use tao_p4code.Route.Result.Single.{fib_res_obj_create-two}
use tao_p4code.Demo.{first_free}
use tao_p4code.Tests.{one_nhop, vxlan_key, start-NeighSound, start-NhopSound}
use tao_p4code.Types.{zero_neigh_entry, zero_ntb_tunnel_info, NeighEntry, tunnel_vxlan}
use tao_p4code.Tunnel.{map_key}
use tao_p4code.EntryApi.{shc_sw_to_hw_rule}
use tao_p4code.EntryApi.Stops.{send_until, tunnel_request, shc_sw_to_hw_rule-stops}
use tao_p4code.Tests.{some_mac, gateway_key}
use tao_p4code.Neigh.Safety.{NeighKey-discrete}
use tao_p4code.Demo.{TunnelMapKey-discrete, write_at, write_at_self}

-- The host route of the address 5 leads to the result 1, whose one path is the next hop at 1.
abbrev pub a_nhop : FibNhop
a_nhop = record (nhop_of vxlan_key) { ref_count = 1; nh_oid = 100; neigh_oid = 200 }

abbrev pub one_route : World demo_env
one_route = record one_nhop {
  vrfs = update start.vrfs 0 (record (start.vrfs 0) {
    dp = record (demo_dp 0) { fib = λ p l. if p == 5 then some (pos 1) else none };
  });
  fib_res =
      update start.fib_res 1
        (record blackhole { fr_flags = 0; mpath_cnt = 1; mpath_max = 1; mpath = some 1 ∷ [] });
}

ntb_route_lookup-requests_example :
    let flow = shc_hal_call one_route (flow_request 0 1 4 5 a_nhop) in
    let hop = shc_hal_call flow.1 (hop_request 0 a_nhop) in
    ntb_route_lookup 0 4 5 0 one_route
    ≡ ok (
        if is_neg flow.0
        then ((flow.0, pos 1), flow.1)
        else ((if is_neg hop.0 then hop.0 else pos 0, pos 1), hop.1))
ntb_route_lookup-requests_example =
    ntb_route_lookup-requests one_route 0 4 5 0 1 1 a_nhop refl
      (record { low = omega arith; first = refl; live = refl })

ntb_route_nhop_insert-Inserted_example :
    Returns
      (Inserted 0 a_prefix vxlan_key)
      (ntb_route_nhop_insert 0 a_prefix vxlan_key rt_default start)
ntb_route_nhop_insert-Inserted_example =
    ntb_route_nhop_insert-Inserted 0 a_prefix vxlan_key start start-NhopSound start-NeighSound
      (λ p n e live. absurd (none_ne_some e)) (λ p n e live. absurd (none_ne_some e)) refl

fib_res_obj_create-two_example :
    fib_res_obj_create (some 1 ∷ some 2 ∷ []) none rt_mroute start ≡ fault
unfolding first_free
fib_res_obj_create-two_example =
    fib_res_obj_create-two start (some 1) (some 2) [] none rt_mroute 1 refl

-- The gateway is known, and the tunnel 0 leads to the first VRF.
abbrev pub resolved : NeighEntry
resolved = record zero_neigh_entry {
  refcnt = 1;
  arp_valid = true;
  neigh_oid = 200;
  d_addr = some_mac;
}

abbrev whole_flow : World demo_env
whole_flow = record one_route {
  vrfs = update one_route.vrfs 0 (record (one_route.vrfs 0) { valid = true });
  tunnel_tbl = write_at TunnelMapKey-discrete start.tunnel_tbl (map_key tunnel_vxlan 0) (some 1);
  tunnels = update start.tunnels 1 (some (record zero_ntb_tunnel_info { vrf_id = 1 }));
  neighs = update start.neighs 1 (some resolved);
}

-- The same flow, where the MAC address of the neighbour is not known: no request is made for it.
abbrev unresolved_flow : World demo_env
unresolved_flow = record whole_flow {
  neighs = update start.neighs 1 (some (record zero_neigh_entry { refcnt = 1 }));
}

shc_sw_to_hw_rule-stops_example :
    shc_sw_to_hw_rule 77 4 5 0 unresolved_flow
    ≡ send_until
        (ok (negsuc 0))
        (flow_request 0 1 4 5 a_nhop ∷ (hop_request 0 a_nhop ∷ []))
        (shc_hal_call unresolved_flow (tunnel_request 0 1)).1
shc_sw_to_hw_rule-stops_example =
    shc_sw_to_hw_rule-stops 0 4 5 0 1 1 a_nhop (some (record zero_neigh_entry { refcnt = 1 }))
      unresolved_flow 77 1 (record zero_ntb_tunnel_info { vrf_id = 1 })
      (write_at_self TunnelMapKey-discrete start.tunnel_tbl (map_key tunnel_vxlan 0) (some 1)) refl
      refl (omega arith) refl refl (record { low = omega arith; first = refl; live = refl })
      (record {
        at = 1;
        entry = write_at_self NeighKey-discrete start.neigh_tbl gateway_key (some 1);
        live = refl;
      })
