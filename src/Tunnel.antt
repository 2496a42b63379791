-- ===== src/Tunnel.antt =====
-- agent/tunnel_map.c: the map from tunnels to VRFs.
pub mod Mapping
pub mod Dangling
pub mod Cleared
use tao_p4code.Base.{
  ℕ, ℤ, pos, is_neg, Bool, true, false, Option, none, some, List, [], ◌∷◌, ◌==◌, if◌then◌else◌,
  update, inc32, dec32, zero, suc, length,
}
use tao_p4code.Types.{
  TunnelType, tunnel_invalid, tunnel_vxlan, tunnel_tgre, tunnel_max, TunnelMapKey, NtbTunnelInfo,
  zero_ntb_tunnel_info,
}
use tao_p4code.Errno.{
  ntb_err_code, ntb_vrf_not_exist, ntb_tunnel_inused, ntb_comm_nomem, ntb_tunnel_map_nospace,
}
use tao_p4code.Dpdk.{
  Table, HalReq, type_tunnel_type_vxlan, type_tunnel_type_gre, tunnel_map_vrf_entry_add,
  tunnel_map_vrf_entry_del,
}
use tao_p4code.World.{
  Env, World, Run, ok, fault, M, VrfDp, pure, ◌>>=◌, ◌>>◌, get, put, set_dp, shc_hal_call,
}
use tao_p4code.Vrf.Table.{ntb_vrf_lookup, ntb_vrf_dp_get_by_id}

-- The request of _shc_hal_tunnel_map_vrf_entry_add. In the branch for GRE the VRF is `id.vni`: the
-- same word of the union as the key.
abbrev pub tunnel_add_request : TunnelType → ℕ → ℕ → HalReq
tunnel_add_request tunnel_vxlan id vrf_id =
    tunnel_map_vrf_entry_add type_tunnel_type_vxlan id vrf_id
tunnel_add_request _ id vrf_id = tunnel_map_vrf_entry_add type_tunnel_type_gre id id

abbrev pub tunnel_del_request : TunnelType → ℕ → HalReq
tunnel_del_request tunnel_vxlan id = tunnel_map_vrf_entry_del type_tunnel_type_vxlan id
tunnel_del_request _ id = tunnel_map_vrf_entry_del type_tunnel_type_gre id

-- `SLIST_REMOVE` of the first `p`. It follows the pointers of the elements before `p`, which are to
-- live, and runs off the end of a list that has no `p`.
abbrev pub slist_remove : (ℕ → Option NtbTunnelInfo) → ℕ → List ℕ → Option (List ℕ)
slist_remove tunnels p [] = none
slist_remove tunnels p (q ∷ qs) =
    let removed = slist_remove tunnels p qs in
    if q == p then some qs else elim (tunnels q) [
      | none ↦ none
      | some t ↦ elim removed [ none ↦ none | some rs ↦ some (q ∷ rs) ]
    ]

abbrev pub map_key : TunnelType → ℕ → TunnelMapKey
map_key type id = record { type = type; id = id }

module _ {env : Env} where
  -- _shc_hal_tunnel_map_vrf_entry_add
  pub shc_hal_tunnel_map_vrf_entry_add : World env → TunnelType → ℕ → ℕ → ℤ × World env
  unfolding shc_hal_call
  shc_hal_tunnel_map_vrf_entry_add w type id vrf_id =
      shc_hal_call w (tunnel_add_request type id vrf_id)

  -- _shc_hal_tunnel_map_vrf_entry_del
  pub shc_hal_tunnel_map_vrf_entry_del : World env → TunnelType → ℕ → ℤ × World env
  unfolding shc_hal_call
  shc_hal_tunnel_map_vrf_entry_del w type id = shc_hal_call w (tunnel_del_request type id)

  abbrev pub write_tunnel : World env → ℕ → Option NtbTunnelInfo → World env
  write_tunnel w p t = record w { tunnels = update w.tunnels p t }

  -- The branch of ntb_tunnel_map_vrf that makes the tunnel of the VRF `v`. Of the new object only
  -- `vrf_id` is written.
  tunnel_new : World env → ℕ → TunnelType → ℕ → ℤ × World env
  tunnel_new w v type id = elim (env.zmalloc w.tunnels) [
    | none ↦ (ntb_err_code ntb_comm_nomem, w)
    | some p ↦ elim (env.tunnel.add w.tunnel_tbl (map_key type id) p) [
      | none ↦ (ntb_err_code ntb_tunnel_map_nospace, w)
      | some tbl ↦
          let d : VrfDp env = (w.vrfs v).dp in
          (
            pos 0,
            record (set_dp w v
                (record d { tunnel_rmap = p ∷ d.tunnel_rmap; tunnel_cnt = inc32 d.tunnel_cnt })) {
                  tunnel_tbl = tbl;
                  tunnels =
                      update w.tunnels p (some (record zero_ntb_tunnel_info { vrf_id = d.vrf_id }));
                },
          )
    ]
  ]

  -- The argument `tunnel_attr` is not used.
  pub ntb_tunnel_map_vrf : World env → List ℕ → TunnelType → ℕ → Run (ℤ × World env)
  unfolding tunnel_new
  ntb_tunnel_map_vrf w vrf_name type id = elim (ntb_vrf_lookup w vrf_name) [
    | none ↦ ok (ntb_err_code ntb_vrf_not_exist, w)
    | some v ↦ elim (env.tunnel.lookup w.tunnel_tbl (map_key type id)) [
      | none ↦ ok (tunnel_new w v type id)
      | some p ↦ elim (w.tunnels p) [
        | none ↦ fault
        | some t ↦
            ok (
              if t.vrf_id == (w.vrfs v).dp.vrf_id then pos 0 else ntb_err_code ntb_tunnel_inused,
              w,
            )
      ]
    ]
  ]

  -- The tunnel at `p` leaves the list of its VRF and is freed. The table keeps its entry: the call
  -- that takes it out is commented out.
  tunnel_release : ℕ → Option ℕ → M env ℤ
  tunnel_release p none w = fault
  tunnel_release p (some v) w = elim (slist_remove w.tunnels p (w.vrfs v).dp.tunnel_rmap) [
    | none ↦ fault
    | some rest ↦
        let d : VrfDp env = (w.vrfs v).dp in
        ok (
          pos 0,
          write_tunnel
              (set_dp w v (record d { tunnel_rmap = rest; tunnel_cnt = dec32 d.tunnel_cnt })) p
              none,
        )
  ]

  pub ntb_tunnel_unmap_vrf : TunnelType → ℕ → M env ℤ
  unfolding shc_hal_tunnel_map_vrf_entry_del tunnel_release
  ntb_tunnel_unmap_vrf type id w = elim (env.tunnel.lookup w.tunnel_tbl (map_key type id)) [
    | none ↦ ok (pos 0, w)
    | some p ↦
        let w' = (shc_hal_tunnel_map_vrf_entry_del w type id).1 in
        elim (w'.tunnels p) [
          | none ↦ fault
          | some t ↦ elim (ntb_vrf_dp_get_by_id w' t.vrf_id) [
            | fault ↦ fault
            | ok v ↦ tunnel_release p v w'
          ]
        ]
  ]

  -- The state after the request that ntb_tunnel_map_vrf_lookup makes.
  pub lookup_request : World env → TunnelType → ℕ → ℕ → ℕ → World env
  unfolding shc_hal_tunnel_map_vrf_entry_add shc_hal_tunnel_map_vrf_entry_del
  lookup_request w type id flag_of_add_del vrf_id =
      (if flag_of_add_del == 0
        then shc_hal_tunnel_map_vrf_entry_add w type id vrf_id
        else shc_hal_tunnel_map_vrf_entry_del w type id).1

  -- The VRF of a tunnel, or NULL. The flag 0 enters the tunnel in the switch, any other takes it out.
  -- The status of the request is read by an assertion only, which demands that it is not 0, that is,
  -- that the switch refuses; here assertions do nothing.
  pub ntb_tunnel_map_vrf_lookup : TunnelType → ℕ → ℕ → M env (Option ℕ)
  unfolding lookup_request
  ntb_tunnel_map_vrf_lookup type id flag_of_add_del w =
      elim (env.tunnel.lookup w.tunnel_tbl (map_key type id)) [
        | none ↦ ok (none, w)
        | some p ↦ elim (w.tunnels p) [
          | none ↦ fault
          | some t ↦
              let w' = lookup_request w type id flag_of_add_del t.vrf_id in
              elim (ntb_vrf_dp_get_by_id w' t.vrf_id) [ fault ↦ fault | ok v ↦ ok (v, w') ]
        ]
      ]

  -- The loop of ntb_tunnel_map_cleanup over the list of the VRF: each tunnel leaves the list and is
  -- freed.
  cleanup_list : ℕ → List ℕ → M env (Unit {0})
  cleanup_list v [] w = ok (tt, w)
  cleanup_list v (p ∷ ps) w = elim (w.tunnels p) [
    | none ↦ fault
    | some t ↦
        let d : VrfDp env = (w.vrfs v).dp in
        cleanup_list v ps (
          write_tunnel (set_dp w v (record d { tunnel_rmap = ps; tunnel_cnt = dec32 d.tunnel_cnt }))
            p none)
  ]

  pub ntb_tunnel_map_cleanup : ℕ → M env ℤ
  unfolding cleanup_list
  ntb_tunnel_map_cleanup v w = (cleanup_list v ((w.vrfs v).dp.tunnel_rmap) >> pure (pos 0)) w
