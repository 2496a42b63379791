-- ===== src/Tests.antt =====
-- The results on neighbours and next hops at concrete inputs, in the environment of Demo.
pub mod Removes
pub mod Vrfs
pub mod Routes
pub mod Ribs
pub mod Receives
pub mod Setups
use tao_p4code.Base.{
  negsuc, ℕ, suc, ◌<◌, ◌≡◌, ◌↔◌, ◌⊎◌, ℤ, pos, is_neg, is_zero, true, none, some, List, [], ◌∷◌,
  arith, refl, if◌then◌else◌, ltb, ◌&&◌, update, ◌≤◌, zero, sym, ap, ◌≢◌, ◌==◌,
}
use tao_p4code.Errno.{enoent}
use tao_p4code.Types.{
  NhopEncapData, vxlan, NeighKey, tunnel_vxlan, zero_ntb_tunnel_info, ntb_nr_vrf, FibNhop,
}
use tao_p4code.Errno.{ntb_err_code, ntb_vrf_noent, ntb_tunnel_inused}
use tao_p4code.World.{World, ok, fault, Returns, shc_hal_call}
use tao_p4code.Neigh.{ntb_neigh_add, ntb_neigh_del, ol_neigh_add_static, ntb_neigh_lookup}
use tao_p4code.Neigh.Safety.{
  ntb_neigh_add-IsSound, ntb_neigh_del-IsSound, ol_neigh_add_static-IsSound,
}
use tao_p4code.Neigh.Safety as NeighSafety
use tao_p4code.Neigh.Undo.{SameNeighs, ntb_neigh_del-add}
use tao_p4code.Neigh.Resolve.{ntb_neigh_lookup-add, ntb_neigh_lookup-add_static}
use tao_p4code.Route.Nhop.{nhop_obj_create, nhop_obj_delete}
use tao_p4code.Route.Nhop.Safety as NhopSafety
use tao_p4code.Route.Nhop.Create.{Created, nhop_obj_create-IsSound}
use tao_p4code.Route.Nhop.Delete.{nhop_obj_delete-IsSound}
use tao_p4code.Route.Lookup.{fib_res_select_mpath, ntb_route_lookup}
use tao_p4code.Route.Lookup.Requests.{
  select_mpath-lt, flow_request, hop_request, ntb_route_lookup-requests,
}
use tao_p4code.Vrf.Table.{
  ntb_vrf_add, ntb_vrf_lookup, ntb_vrf_count, ntb_vrf_intip_set, ntb_vrf_intip_get,
  ntb_vrf_rmac_set, ntb_vrf_rmac_get, ntb_vrf_get_by_id, find_vrf, scan_add,
}
use tao_p4code.Vrf.Table.Add.{Named, AllTaken, lookup-add, add-eq-noent}
use tao_p4code.Vrf.Table.Invariant.{IsTable, ntb_vrf_add-IsTable, ntb_vrf_count-le, count_valid}
use tao_p4code.Vrf.Table.Attributes.{intip_get-set, rmac_get-set, get_by_id-suc}
use tao_p4code.Tunnel.{
  map_key, ntb_tunnel_map_vrf, ntb_tunnel_map_vrf_lookup, ntb_tunnel_unmap_vrf, lookup_request,
}
use tao_p4code.Tunnel.Mapping.{map_vrf_lookup-map_vrf, map_vrf_again}
use tao_p4code.Tunnel.Dangling.{IsDangling, unmap_vrf-IsDangling}
use tao_p4code.Demo.{write_at, first_none, write_at_self, TunnelMapKey-discrete}
use mathlib.Core.Bool.{false≢true}
use tao_p4code.Neigh.Safety.{NeighKey-discrete}
use tao_p4code.Types.{zero_neigh_entry}
use tao_p4code.Dpdk.Owned.{Owned-add}
use tao_p4code.Route.Nhop.{nhop_of}
use tao_p4code.Demo.{demo_env, demo_dp, start, none_ne_some, blackhole}

-- No neighbour and no next hop.
pub start-NeighSound : NeighSafety.IsSound start
start-NeighSound = record {
  live = λ k p e. absurd (none_ne_some e);
  apart = λ j k p e f. absurd (none_ne_some e);
}

pub start-NhopSound : NhopSafety.IsSound start
start-NhopSound = record {
  live = λ k p e. absurd (none_ne_some e);
  apart = λ j k p e f. absurd (none_ne_some e);
}

abbrev pub gateway_key : NeighKey
gateway_key = record { vrfid = 1; nexthop = 9 }

-- One neighbour of the VRF with the id 1, which has one use.
abbrev pub one_neigh : World demo_env
one_neigh = record start {
  neigh_tbl = write_at NeighKey-discrete start.neigh_tbl gateway_key (some 1);
  neighs = update start.neighs 1 (some (record zero_neigh_entry { refcnt = 1 }));
}

pub one_neigh-NeighSound : NeighSafety.IsSound one_neigh
one_neigh-NeighSound =
    Owned-add demo_env.neigh NeighSafety.InUse NeighKey-discrete start-NeighSound gateway_key 1
      (record zero_neigh_entry { refcnt = 1 }) one_neigh.neigh_tbl refl refl (omega arith)

abbrev pub vxlan_key : NhopEncapData
vxlan_key = record {
  gateway = 9;
  tunnel_info = record { family = 2; type = vxlan; word0 = 7; word1 = 8; word2 = 9 };
}

-- One next hop, which has one use, by the gateway 9.
abbrev pub one_nhop : World demo_env
one_nhop = record one_neigh {
  nhop_tbl = write_at NhopSafety.NhopKey-discrete start.nhop_tbl vxlan_key (some 1);
  nhops =
      update start.nhops 1
        (some (record (nhop_of vxlan_key) { ref_count = 1; nh_oid = 100; neigh_oid = 200 }));
}

pub one_nhop-NhopSound : NhopSafety.IsSound one_nhop
one_nhop-NhopSound =
    Owned-add demo_env.nhop NhopSafety.InUse NhopSafety.NhopKey-discrete start-NhopSound vxlan_key 1
      (record (nhop_of vxlan_key) { ref_count = 1; nh_oid = 100; neigh_oid = 200 })
      one_nhop.nhop_tbl refl refl (refl, omega arith, omega arith)

ntb_neigh_add-IsSound_example : Returns (λ _. NeighSafety.IsSound) (ntb_neigh_add start 0 9)
ntb_neigh_add-IsSound_example =
    ntb_neigh_add-IsSound start 0 9 start-NeighSound (λ p n e live. absurd (none_ne_some e))

ntb_neigh_del-IsSound_example : Returns (λ _. NeighSafety.IsSound) (ntb_neigh_del one_neigh 0 9)
ntb_neigh_del-IsSound_example = ntb_neigh_del-IsSound one_neigh 0 9 one_neigh-NeighSound

ol_neigh_add_static-IsSound_example :
    Returns (λ _. NeighSafety.IsSound) (ol_neigh_add_static start 1 9 (1 ∷ 2 ∷ 3 ∷ 4 ∷ 5 ∷ 6 ∷ []))
ol_neigh_add_static-IsSound_example =
    ol_neigh_add_static-IsSound start 1 9 (1 ∷ 2 ∷ 3 ∷ 4 ∷ 5 ∷ 6 ∷ []) start-NeighSound
      (λ p n e live. absurd (none_ne_some e))

nhop_obj_create-IsSound_example : Returns (Created vxlan_key) (nhop_obj_create 0 vxlan_key start)
nhop_obj_create-IsSound_example =
    nhop_obj_create-IsSound 0 vxlan_key start start-NhopSound start-NeighSound
      (λ p n e live. absurd (none_ne_some e)) (λ p n e live. absurd (none_ne_some e))

nhop_obj_delete-IsSound_example :
    Returns (λ r w. (r ≡ pos 0) × NhopSafety.BothSound w) (nhop_obj_delete 0 (some 1) one_nhop)
nhop_obj_delete-IsSound_example =
    nhop_obj_delete-IsSound 0 vxlan_key 1 one_nhop one_nhop-NhopSound one_neigh-NeighSound
      (write_at_self NhopSafety.NhopKey-discrete start.nhop_tbl vxlan_key (some 1))

abbrev pub some_mac : List ℕ
some_mac = 1 ∷ 2 ∷ 3 ∷ 4 ∷ 5 ∷ 6 ∷ []

ntb_neigh_lookup-add_static_example :
    Returns
      (λ ret u.
        ((is_neg ret ≡ true) × (u ≡ start))
        ⊎ ((ret ≡ pos 0)
            × ((status : ℤ) × (u' : World demo_env) × (ntb_neigh_lookup u 1 9 0
                  ≡ ok ((status, some some_mac), u')))))
      (ol_neigh_add_static start 1 9 some_mac)
ntb_neigh_lookup-add_static_example =
    ntb_neigh_lookup-add_static start 1 9 0 some_mac start-NeighSound

ntb_neigh_lookup-add_example :
    Returns
      (λ r u.
        let found = ntb_neigh_lookup u 1 9 0 in
        ((is_neg r.0 ≡ true) × (found ≡ ok ((enoent, none), u)))
        ⊎ ((r.0 ≡ pos 0) × (found ≡ ok ((negsuc 0, none), u))))
      (ntb_neigh_add start 0 9)
ntb_neigh_lookup-add_example = ntb_neigh_lookup-add start 0 9 0 refl

ntb_neigh_del-add_example :
    Returns
      (λ r u.
        ((is_neg r.0 ≡ true) × SameNeighs start u)
        ⊎ ((r.0 ≡ pos 0)
            × Returns (λ ret x. (ret ≡ pos 0) × SameNeighs start x) (ntb_neigh_del u 0 9)))
      (ntb_neigh_add start 0 9)
ntb_neigh_del-add_example =
    ntb_neigh_del-add start 0 9 start-NeighSound (λ p n e live. absurd (none_ne_some e))
