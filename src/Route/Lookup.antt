-- ===== src/Route/Lookup.antt =====
-- agent/route.c: the lookup of a flow's route, which enters it in the switch or takes it out, the
-- choice of a path, and the deletion of all routes of a VRF.
pub mod Requests
pub mod Cleanup
pub mod Emptied
use tao_p4code.Base.{
  ℕ, zero, suc, ◌%◌, ◌+◌, ℤ, pos, is_neg, Option, none, some, ◌==◌, ltb, if◌then◌else◌,
}
use tao_p4code.Types.{FibRes, FibNhop, vxlan_vni, vxlan_local, vxlan_remote, RibKey}
use tao_p4code.Dpdk.{route_entry_add, route_entry_del, nhop_entry_add, nhop_entry_del, Table}
use tao_p4code.World.{Env, World, Run, ok, fault, M, pure, ◌>>=◌, ◌>>◌, get, put, shc_hal_call}
use tao_p4code.Route.Result.{fib_res_get}
use tao_p4code.Route.Prefix.{mpath_load}
use tao_p4code.Route.Update.{ntb_route_delete}

-- `hash` is converted to `uint32_t`, the type of `mpath_cnt`.
pub fib_res_select_mpath : FibRes → ℕ → ℕ
fib_res_select_mpath r hash = if ltb 0 r.mpath_cnt then hash % r.mpath_cnt else 0

module _ {env : Env} where
  -- _shc_hal_route_entry_add
  pub shc_hal_route_entry_add : ℕ → ℕ → ℕ → ℕ → M env ℤ
  unfolding shc_hal_call
  shc_hal_route_entry_add vrf_id src_ip dst_ip nh_oid w =
      ok (shc_hal_call w (route_entry_add vrf_id src_ip dst_ip nh_oid))

  -- _shc_hal_route_entry_del
  pub shc_hal_route_entry_del : ℕ → ℕ → ℕ → M env ℤ
  unfolding shc_hal_call
  shc_hal_route_entry_del vrf_id src_ip dst_ip w =
      ok (shc_hal_call w (route_entry_del vrf_id src_ip dst_ip))

  -- _shc_hal_nhop_entry_add: `tunnel_key` and `local` are not passed on, two constants are.
  pub shc_hal_nhop_entry_add : (nhop_id tunnel_key local remote neigh_id : ℕ) → M env ℤ
  unfolding shc_hal_call
  shc_hal_nhop_entry_add nhop_id tunnel_key local remote neigh_id w =
      ok (shc_hal_call w (nhop_entry_add nhop_id 11 0xD00001 remote neigh_id))

  -- _shc_hal_nhop_entry_del
  pub shc_hal_nhop_entry_del : ℕ → M env ℤ
  unfolding shc_hal_call
  shc_hal_nhop_entry_del nhop_id w = ok (shc_hal_call w (nhop_entry_del nhop_id))

  -- The request for the flow, to enter it (flag 0) or to take it out.
  route_request : ℕ → ℕ → ℕ → FibRes → ℕ → M env ℤ
  unfolding shc_hal_route_entry_add shc_hal_route_entry_del
  route_request vrf_id sip dip r flag =
      if flag == 0
      then (mpath_load r 0 >>= λ n. shc_hal_route_entry_add vrf_id sip dip n.nh_oid)
      else shc_hal_route_entry_del vrf_id sip dip

  -- The request for the flow's next hop.
  nhop_request : FibNhop → ℕ → M env ℤ
  unfolding shc_hal_nhop_entry_add shc_hal_nhop_entry_del
  nhop_request n flag =
      if flag == 0
      then shc_hal_nhop_entry_add n.nh_oid (vxlan_vni n.tunnel_info) (vxlan_local n.tunnel_info)
          (vxlan_remote n.tunnel_info) n.neigh_oid
      else shc_hal_nhop_entry_del n.nh_oid

  -- The result, and the index of the element to which `*f_res` points. The addresses come in
  -- network order.
  pub ntb_route_lookup : ℕ → ℕ → ℕ → ℕ → M env (ℤ × ℤ)
  unfolding route_request nhop_request
  ntb_route_lookup v sip dip flag = do
    w ← get
    let next_hop = env.fib.lookup (w.vrfs v).dp.fib (env.be_to_cpu dip)
    r ← fib_res_get next_hop
    ret ← route_request (w.vrfs v).dp.vrf_id (env.be_to_cpu sip) (env.be_to_cpu dip) r flag
    if is_neg ret then pure (ret, next_hop) else do
      n ← mpath_load r 0
      ret' ← nhop_request n flag
      pure (if is_neg ret' then ret' else pos 0, next_hop)

  -- The loop of ntb_route_cleanup from the position `iter` on; the positions bound its rounds.
  cleanup_loop : ℕ → ℕ → ℕ → M env (Unit {0})
  cleanup_loop zero v iter w = fault
  cleanup_loop (suc rounds) v iter w = elim (env.rib.iterate w.rib iter) [
    | none ↦ ok (tt, w)
    | some (next, key, id) ↦
        elim ((if (w.vrfs v).dp.vrf_id == key.vrf_id then ntb_route_delete v key else pure (pos 0))
          w) [ fault ↦ fault | ok (r, w') ↦ cleanup_loop rounds v next w' ]
  ]

  pub ntb_route_cleanup : ℕ → M env ℤ
  unfolding cleanup_loop
  ntb_route_cleanup v = cleanup_loop (env.rib.entries + 1) v 0 >> pure (pos 0)
