-- ===== src/EntryApi/Stops.antt =====
-- The requests that one call of shc_swTohw_rule of agent/entry_api.c makes, and where it stops.
use tao_p4code.Base.{
  ℕ, ℤ, pos, negsuc, suc, ◌<◌, ◌≡◌, refl, ap, ◌∙◌, true, Option, none, some, is_neg, if◌then◌else◌,
  ◌==◌, List, [], ◌∷◌, Bool-cases, inl, inr,
}
use tao_p4code.Errno.{enoent}
use tao_p4code.Types.{FibNhop, NeighEntry, NtbTunnelInfo, tunnel_vxlan, ntb_nr_vrf}
use tao_p4code.Dpdk.{HalReq}
use tao_p4code.World.{Env, World, Run, ok, fault, M, pure, ◌>>=◌, shc_hal_call, bind}
use tao_p4code.Tunnel.{map_key, tunnel_add_request, tunnel_del_request}
use tao_p4code.Tunnel.Mapping.{lookup_live, lookup_request-eq}
use tao_p4code.Route.Result.{fib_res_get}
use tao_p4code.Route.Prefix.{mpath_load}
use tao_p4code.Route.Lookup.{ntb_route_lookup}
use tao_p4code.Route.Lookup.Requests.{
  FirstHop, flow_request, hop_request, ntb_route_lookup-requests, get_res, load_first,
}
use tao_p4code.Neigh.{ntb_neigh_lookup}
use tao_p4code.Neigh.Resolve.{Entry, ntb_neigh_lookup-eq, ntb_neigh_lookup-none, resolve_live}
use tao_p4code.EntryApi.{shc_sw_to_hw_rule, rule_in_vrf, neigh_done}

-- The request for the tunnel.
abbrev pub tunnel_request : ℕ → ℕ → HalReq
tunnel_request flag vrf_id =
    if flag == 0
    then tunnel_add_request tunnel_vxlan 0 vrf_id
    else tunnel_del_request tunnel_vxlan 0

-- How the call ends once the switch has accepted the route: a neighbour that is not in the table, or
-- whose MAC address is not known, is an error; an address that is known is copied through a pointer
-- that is never set.
abbrev pub neigh_end : Option NeighEntry → Run ℤ
neigh_end none = ok enoent
neigh_end (some e) = if e.arp_valid then fault else ok (negsuc 0)

module _ {env : Env} where
  -- The requests one after the other, as far as the switch accepts them, and then the end.
  abbrev pub send_until : Run ℤ → List HalReq → World env → Run (ℤ × World env)
  send_until fault [] w = fault
  send_until (ok ret) [] w = ok (ret, w)
  send_until last (r ∷ rs) w =
      let call = shc_hal_call w r in if is_neg call.0 then ok call else send_until last rs call.1

  -- What the table of neighbours holds at the address.
  abbrev pub Neighbour : World env → ℕ → ℕ → Option NeighEntry → Type 0
  Neighbour w vrfid gw none =
      env.neigh.lookup w.neigh_tbl (record { vrfid = vrfid; nexthop = gw }) ≡ none
  Neighbour w vrfid gw (some e) = Entry w vrfid gw e

  -- A request changes nothing that the lookups read.
  FirstHop-call :
      (w : World env) (r : HalReq) (i q : ℕ) (n : FibNhop)
      → FirstHop w i q n
      → FirstHop (shc_hal_call w r).1 i q n
  unfolding shc_hal_call
  FirstHop-call w r i q n h = record { low = h.low; first = h.first; live = h.live }

  Neighbour-call :
      (w : World env) (r : HalReq) (v gw : ℕ) (o : Option NeighEntry)
      → Neighbour w (w.vrfs v).dp.vrf_id gw o
      → let u = (shc_hal_call w r).1 in Neighbour u (u.vrfs v).dp.vrf_id gw o
  unfolding shc_hal_call
  Neighbour-call w r v gw none h = h
  Neighbour-call w r v gw (some e) h = record { at = h.at; entry = h.entry; live = h.live }

  -- What rule_in_vrf does after the lookup of the next hop, and after that of the route.
  neigh_rest : ℕ → ℕ → FibNhop → M env ℤ
  neigh_rest v flag n w = elim (ntb_neigh_lookup w ((w.vrfs v).dp.vrf_id) n.gateway flag) [
    | fault ↦ fault
    | ok found ↦ neigh_done found
  ]

  res_rest : ℕ → ℕ → ℤ × ℤ → M env ℤ
  unfolding neigh_rest
  res_rest v flag (ret, f_res) =
      if is_neg ret
      then pure ret
      else (fib_res_get f_res >>= λ r. mpath_load r 0 >>= neigh_rest v flag)

  neigh_rest-sends :
      (v flag : ℕ) (n : FibNhop) (o : Option NeighEntry) (w : World env)
      → Neighbour w (w.vrfs v).dp.vrf_id n.gateway o
      → neigh_rest v flag n w ≡ send_until (neigh_end o) [] w
  unfolding neigh_rest
  neigh_rest-sends v flag n none w h =
      rw (ntb_neigh_lookup-none w (w.vrfs v).dp.vrf_id n.gateway flag h, neigh_rest) refl
  neigh_rest-sends v flag n (some e) w h = elim (Bool-cases e.arp_valid) [
    | inl on ↦
        rw (ntb_neigh_lookup-eq w (w.vrfs v).dp.vrf_id n.gateway flag e h on, on, neigh_rest) refl
    | inr off ↦
        rw ((resolve_live w (w.vrfs v).dp.vrf_id n.gateway flag e h).1 off, off, neigh_rest) refl
  ]

  module _ (v sip dip flag i q : ℕ) (n : FibNhop) (o : Option NeighEntry) where
    abbrev flow_of : World env → HalReq
    flow_of w = flow_request flag (w.vrfs v).dp.vrf_id (env.be_to_cpu sip) (env.be_to_cpu dip) n

    -- After the route.
    res_rest-sends :
        (w : World env)
        → FirstHop w i q n
        → Neighbour w (w.vrfs v).dp.vrf_id n.gateway o
        → res_rest v flag (pos 0, pos i) w ≡ send_until (neigh_end o) [] w
    unfolding res_rest
    res_rest-sends w h found =
        bind {w = w} (fib_res_get (pos i)) (λ r. mpath_load r 0 >>= neigh_rest v flag)
          (get_res w i h.low)
        ∙ bind {w = w} (mpath_load (w.fib_res i) 0) (neigh_rest v flag)
            (load_first w w i q n h refl)
        ∙ neigh_rest-sends v flag n o w found

    rule_in_vrf-sends :
        (w : World env)
        → env.fib.lookup (w.vrfs v).dp.fib (env.be_to_cpu dip) ≡ pos i
        → FirstHop w i q n
        → Neighbour w (w.vrfs v).dp.vrf_id n.gateway o
        → rule_in_vrf v sip dip flag w
          ≡ send_until (neigh_end o) (flow_of w ∷ (hop_request flag n ∷ [])) w
    unfolding rule_in_vrf res_rest neigh_rest
    rule_in_vrf-sends w at h found =
        let flow = shc_hal_call w (flow_of w) in
        let hop = shc_hal_call flow.1 (hop_request flag n) in
        bind {w = w} (ntb_route_lookup v sip dip flag) (res_rest v flag)
          (ntb_route_lookup-requests w v sip dip flag i q n at h)
        ∙ elim (Bool-cases (is_neg flow.0)) [
          | inl e ↦ rw (e, res_rest) (rw e refl)
          | inr e ↦ rw e (elim (Bool-cases (is_neg hop.0)) [
            | inl k ↦ rw (k, res_rest) (rw k refl)
            | inr k ↦ rw k (
                res_rest-sends hop.1
                  (FirstHop-call flow.1 (hop_request flag n) i q n
                    (FirstHop-call w (flow_of w) i q n h))
                  (Neighbour-call flow.1 (hop_request flag n) v n.gateway o
                    (Neighbour-call w (flow_of w) v n.gateway o found)))
          ])
        ]

    -- After the request for the tunnel, the lookups read what they would have read before it.
    rule_in_vrf-after :
        (r : HalReq) (w : World env)
        → env.fib.lookup (w.vrfs v).dp.fib (env.be_to_cpu dip) ≡ pos i
        → FirstHop w i q n
        → Neighbour w (w.vrfs v).dp.vrf_id n.gateway o
        → rule_in_vrf v sip dip flag (shc_hal_call w r).1
          ≡ send_until (neigh_end o) (flow_of w ∷ (hop_request flag n ∷ [])) (shc_hal_call w r).1
    unfolding shc_hal_call
    rule_in_vrf-after r w at h found =
        rule_in_vrf-sends (shc_hal_call w r).1 at (FirstHop-call w r i q n h)
          (Neighbour-call w r v n.gateway o found)

    -- In a build in which assertions do nothing: where the table leads from the VXLAN tunnel 0
    -- to a live object with the id of a VRF in use, and the longest prefix of the destination in
    -- that VRF leads to a result whose first path is a live next hop, shc_swTohw_rule, for every
    -- vni and whatever the switch answers, makes the request for the tunnel, whose status only
    -- an assertion looks at, and then those for the flow and the next hop, as far as the switch
    -- accepts them. If it refuses one of these two, that status is returned; else the call
    -- returns ENOENT (negative) where the neighbour is not in the table and -1 where its MAC
    -- address is not known, and where the address is known it is copied through the pointer
    -- ethhdr, which is never set: a fault. Where the call returns, the state is the one after
    -- the requests.
    pub shc_sw_to_hw_rule-stops :
        (w : World env) (vni p : ℕ) (t : NtbTunnelInfo)
        → env.tunnel.lookup w.tunnel_tbl (map_key tunnel_vxlan 0) ≡ some p
        → w.tunnels p ≡ some t
        → t.vrf_id ≡ suc v
        → v < ntb_nr_vrf
        → (w.vrfs v).valid ≡ true
        → env.fib.lookup (w.vrfs v).dp.fib (env.be_to_cpu dip) ≡ pos i
        → FirstHop w i q n
        → Neighbour w (w.vrfs v).dp.vrf_id n.gateway o
        → shc_sw_to_hw_rule vni sip dip flag w
          ≡ send_until
              (neigh_end o)
              (flow_of w ∷ (hop_request flag n ∷ []))
              (shc_hal_call w (tunnel_request flag (suc v))).1
    unfolding shc_sw_to_hw_rule
    shc_sw_to_hw_rule-stops w vni p t entry live is low valid at h found =
        let request = tunnel_request flag (suc v) in
        rw (lookup_live w tunnel_vxlan 0 flag p v t entry live is low valid, shc_sw_to_hw_rule)
          (ap (rule_in_vrf v sip dip flag) (lookup_request-eq w tunnel_vxlan 0 flag (suc v))
            ∙ rule_in_vrf-after request w at h found)
