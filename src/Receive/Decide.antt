-- ===== src/Receive/Decide.antt =====
-- What becomes of a packet, as a decision on the tables of the agent.
pub mod Hop
pub mod Refine
use tao_p4code.Base.{
  ℕ, zero, suc, ◌+◌, ◌-◌, ◌*◌, ◌/◌, ◌%◌, ◌^◌, ◌<◌, ◌≤◌, ◌≡◌, ◌⊎◌, inl, inr, refl, subst, sym, ap,
  ◌∙◌, ℤ, pos, Bool, true, false, Option, none, some, List, ◌++◌, [], ◌∷◌, arith, ◌&&◌, get_elem?,
  length, ◌==◌, ltb, if◌then◌else◌, ==_iff, update, Bool-cases, Option-cases,
}
use tao_p4code.Types.{
  Mac, FibRes, FibNhop, NeighEntry, tunnel_vxlan, fib_res_is_reject, fib_res_is_mroute,
  NtbTunnelInfo, NeighKey, ntb_nr_vrf,
}
use tao_p4code.World.{Env, World, Run, ok, fault}
use tao_p4code.Pmd.{ip_tunnel_inner_ether_need, ether_need}
use tao_p4code.Neigh.Safety.{IsSound}
use tao_p4code.Route.Result.Single.{IsPlain}
use tao_p4code.Route.Result.{fib_res_get}
use tao_p4code.Route.Prefix.{mpath_load}
use tao_p4code.Route.Lookup.{fib_res_select_mpath}
use tao_p4code.Route.Lookup.Requests.{select_mpath-lt, FirstHop, load_first, get_res}
use tao_p4code.Vrf.Table.Attributes.{get_by_id-suc}
use tao_p4code.Vrf.Table.{ntb_vrf_dp_get_by_id}
use tao_p4code.Tunnel.{map_key}
use tao_p4code.Receive.{
  PmdLib, KeyValue, Metadata, Rx, ◌>>=◌, value, stat_inc, overlay_ip_forward_noarp,
  ntb_route_lookup, ntb_tunnel_map_vrf_lookup, ntb_neigh_lookup,
}
use tao_p4code.Receive.Forward.{
  encap, no_arp, gateway_mac, forward_mac, forward_nhop, ip_forward, ether_hdr_size,
}
use tao_p4code.Receive.Steps.{
  route_rcv, give_back, take_lock, take_mbuf, netio_rx, got, ether_type_ipv4,
}
use tao_p4code.Receive.Parse.{header_len, vni_of, ether_type_of, inner_dst, IsFrame}
use tao_p4code.Receive.Parse.Whole.{frame_rcv, netio_rx-parsed}

-- Nothing is done; a neighbour is asked for; or the encapsulation of the packet is written down.
pub data Action : Type 0 where
  leave : Action
  probe : (vrf_id gw : ℕ) → Action
  send : Mac → FibNhop → Action

-- A packet without a neighbour is counted, and a probe is sent; the counters are read through their
-- pointer, which may be NULL.
abbrev pub probe_sent : Rx → (vrf_id gw : ℕ) → Option (ℕ → ℕ) → Run Rx
probe_sent s vrf_id gw none = fault
probe_sent s vrf_id gw (some f) = ok (record s {
  stats = some (update f overlay_ip_forward_noarp (f overlay_ip_forward_noarp + 1));
  probes = s.probes ++ (vrf_id, gw) ∷ [];
})

module _ {env : Env} (lib : PmdLib env) (w : World env) where
  -- By the entry of the gateway in the table of neighbours.
  abbrev pub by_neigh : ℕ → FibNhop → Option NeighEntry → Action
  by_neigh vrf_id n none = probe vrf_id n.gateway
  by_neigh vrf_id n (some e) = if e.arp_valid then send e.d_addr n else probe vrf_id n.gateway

  abbrev pub entry_of : Option ℕ → Option NeighEntry
  entry_of none = none
  entry_of (some p) = w.neighs p

  -- By the next hop of the route.
  abbrev pub by_gateway : ℕ → FibNhop → Action
  by_gateway vrf_id n =
      if n.gateway == 0
      then send w.def_gw_mac n
      else by_neigh vrf_id n
          (entry_of (env.neigh.lookup w.neigh_tbl (record { vrfid = vrf_id; nexthop = n.gateway })))

  abbrev pub by_nhop : ℕ → FibNhop → Action
  by_nhop vrf_id n = if ip_tunnel_inner_ether_need n.tunnel_info then by_gateway vrf_id n else leave

  -- By the first path of the result, and by the number of the result.
  abbrev pub by_path : ℕ → List (Option ℕ) → Action
  by_path vrf_id (some p ∷ r) = elim (w.nhops p) [ none ↦ leave | some n ↦ by_nhop vrf_id n ]
  by_path vrf_id _ = leave

  abbrev pub by_result : ℕ → ℤ → Action
  by_result vrf_id (pos i) =
      if fib_res_is_reject (w.fib_res i) then leave else by_path vrf_id (w.fib_res i).mpath
  by_result vrf_id (ℤ.negsuc i) = leave

  -- By the tunnel: its VRF, and the longest prefix of the inner destination in that VRF.
  abbrev pub by_vrf : List ℕ → Option ℕ → Action
  by_vrf pkt none = leave
  by_vrf pkt (some v) =
      if ether_type_of pkt == ether_type_ipv4
      then by_result (w.vrfs v).dp.vrf_id
          (env.fib.lookup (w.vrfs v).dp.fib (env.be_to_cpu (inner_dst lib pkt)))
      else leave

  -- The VRF with an id, if it is in use.
  abbrev pub vrf_in_use : ℕ → Option ℕ
  vrf_in_use id = if ltb (id - 1) ntb_nr_vrf && (w.vrfs (id - 1)).valid then some (id - 1) else none

  abbrev pub vrf_of : Option NtbTunnelInfo → Option ℕ
  vrf_of none = none
  vrf_of (some t) = vrf_in_use t.vrf_id

  abbrev pub tunnel_at : Option ℕ → Option NtbTunnelInfo
  tunnel_at none = none
  tunnel_at (some p) = w.tunnels p

  unfoldable pub decide : List ℕ → Action
  decide pkt =
      by_vrf pkt
        (vrf_of (tunnel_at (env.tunnel.lookup w.tunnel_tbl (map_key tunnel_vxlan (vni_of pkt)))))

  -- What is written down: the ends of the tunnel and its VNI, in the upper 24 bits of a word in
  -- network order, the address of the gateway and that of the agent, and two fixed addresses.
  abbrev pub encapsulation : Mac → FibNhop → KeyValue → KeyValue
  encapsulation d n info = record info {
    vni_encp = lib.cpu_to_be_32 (n.tunnel_info.word2 % 2 ^ 24 * 256);
    outer_src_mac = 0x11 ∷ 0x22 ∷ 0x33 ∷ 0x44 ∷ 0x55 ∷ 0x66 ∷ [];
    outer_dst_mac = 0x11 ∷ 0x22 ∷ 0x33 ∷ 0x44 ∷ 0x55 ∷ 0x67 ∷ [];
    outer_src_ip = n.tunnel_info.word1;
    outer_dst_ip = n.tunnel_info.word0;
    inner_src_mac = w.fake_mac;
    inner_dst_mac = d;
  }

  pub perform : Action → Rx → Run Rx
  perform leave s = ok s
  perform (probe vrf_id gw) s = probe_sent s vrf_id gw s.stats
  perform (send d n) s = ok (record s { info = encapsulation d n s.info })

  -- The tables lead to live objects: a tunnel to one with the id of a VRF, an address to a result
  -- that rejects or to one of a single path.
  pub record OnePath (r : FibRes) : Type 0 where
    pub at : ℕ
    pub nhop : FibNhop
    pub plain : IsPlain r
    pub path : r.mpath ≡ some at ∷ []
    pub live : w.nhops at ≡ some nhop

  pub record RouteReady (z : ℤ) : Type 0 where
    pub id : ℕ
    pub is : z ≡ pos id
    pub low : id < env.fb.len
    pub leads : (fib_res_is_reject (w.fib_res id) ≡ true) ⊎ OnePath (w.fib_res id)

  pub record IsReady : Type 0 where
    pub neighs : IsSound w
    pub tunnels :
        (k : ℕ) (p : ℕ)
        → env.tunnel.lookup w.tunnel_tbl (map_key tunnel_vxlan k) ≡ some p
        → (t : NtbTunnelInfo) × (w.tunnels p ≡ some t) × (0 < t.vrf_id) × (t.vrf_id ≤ 2 ^ 31)
    pub routes : (v dst : ℕ) → RouteReady (env.fib.lookup (w.vrfs v).dp.fib dst)
