-- ===== src/EntryApi.antt =====
-- agent/entry_api.c: a flow is entered in the tables of the switch, or taken out.
pub mod Stops
use tao_p4code.Base.{ℕ, ℤ, pos, is_neg, Option, none, some, if◌then◌else◌}
use tao_p4code.Types.{Mac, tunnel_vxlan}
use tao_p4code.World.{Env, World, Run, M, ok, fault, pure, ◌>>=◌, get}
use tao_p4code.Tunnel.{ntb_tunnel_map_vrf_lookup}
use tao_p4code.Route.Result.{fib_res_get}
use tao_p4code.Route.Prefix.{mpath_load}
use tao_p4code.Route.Lookup.{ntb_route_lookup}
use tao_p4code.Neigh.{ntb_neigh_lookup}

-- The initialiser of `tunnel_id` names the three members of a union, `vni`, then `vpcid` and
-- `common_id`: the last one, 0, is what the word holds.
abbrev pub union_init : (vni vpcid common_id : ℕ) → ℕ
union_init vni vpcid common_id = common_id

module _ {env : Env} where
  -- The end of shc_swTohw_rule, from what ntb_neigh_lookup gives. The pointer `ethhdr`, through which
  -- the lookup copies a MAC address, is never set: a copy is a fault.
  abbrev pub neigh_done : (ℤ × Option Mac) × World env → Run (ℤ × World env)
  neigh_done ((ret, none), w) = ok (if is_neg ret then ret else pos 0, w)
  neigh_done ((ret, some mac), w) = fault

  -- What shc_swTohw_rule does in the VRF that it found: the route of the flow, then the neighbour of
  -- the route's gateway.
  rule_in_vrf : ℕ → ℕ → ℕ → ℕ → M env ℤ
  rule_in_vrf v ip_src_addr ip_dst_addr flag = do
    (ret, f_res) ← ntb_route_lookup v ip_src_addr ip_dst_addr flag
    if is_neg ret then pure ret else do
      r ← fib_res_get f_res
      n ← mpath_load r 0
      λ w. elim (ntb_neigh_lookup w ((w.vrfs v).dp.vrf_id) n.gateway flag) [
        | fault ↦ fault
        | ok found ↦ neigh_done found
      ]

  pub shc_sw_to_hw_rule : ℕ → ℕ → ℕ → ℕ → M env ℤ
  unfolding rule_in_vrf
  shc_sw_to_hw_rule vni ip_src_addr ip_dst_addr flag w =
      elim (ntb_tunnel_map_vrf_lookup tunnel_vxlan (union_init vni 0 0) flag w) [
        | fault ↦ fault
        | ok (none, w') ↦ fault
        | ok (some v, w') ↦ rule_in_vrf v ip_src_addr ip_dst_addr flag w'
      ]
