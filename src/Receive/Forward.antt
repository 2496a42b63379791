-- ===== src/Receive/Forward.antt =====
-- ip_forward and ip_forward_m of agent/zdw_agent/pmd.c, which end the way of a packet. The Ethernet
-- header that is put in front of the packet is not kept: the packet is given back to the pool, not
-- sent.
use tao_p4code.Base.{
  ℕ, zero, suc, ◌+◌, ◌*◌, ◌%◌, ◌^◌, ℤ, pos, Bool, true, Option, none, some, ◌++◌, [], ◌∷◌, ◌==◌,
  if◌then◌else◌, is_neg,
}
use tao_p4code.Types.{Mac, FibRes, FibNhop, vxlan_vni, vxlan_local, vxlan_remote}
use tao_p4code.World.{Env, World, Run, ok, fault}
use tao_p4code.Pmd.{ip_tunnel_inner_ether_need}
use tao_p4code.Route.Lookup.{fib_res_select_mpath}
use tao_p4code.Route.Prefix.{mpath_load}
use tao_p4code.Receive.{
  PmdLib, KeyValue, outer_fake_smac, outer_fake_dmac, vxlan_tx_mbuf_prepare_nospace,
  overlay_ip_forward_noarp, Rx, ◌>>=◌, value, stat_inc, ntb_neigh_lookup,
}

abbrev pub ether_hdr_size : ℕ
ether_hdr_size = 14

module _ {env : Env} (lib : PmdLib env) (w : World env) where
  -- The MAC address of the gateway of a next hop, or that of the default gateway.
  abbrev pub gateway_mac : ℕ → FibNhop → Run (ℤ × Option Mac)
  gateway_mac v n =
      if n.gateway == 0
      then ok (pos 0, some w.def_gw_mac)
      else ntb_neigh_lookup w (w.vrfs v).dp.vrf_id n.gateway

  -- No neighbour: the event is counted, then a probe is sent.
  abbrev pub no_arp : ℕ → FibNhop → Rx → Run Rx
  no_arp v n s = do
    s' ← stat_inc overlay_ip_forward_noarp s
    ok (record s' { probes = s'.probes ++ ((w.vrfs v).dp.vrf_id, n.gateway) ∷ [] })

  -- What ip_forward writes into `key_value_info`. The shift is one of 32 bits.
  abbrev pub encap : Mac → FibNhop → KeyValue → KeyValue
  encap d_addr n info = record info {
    inner_dst_mac = d_addr;
    inner_src_mac = w.fake_mac;
    vni_encp = lib.cpu_to_be_32 ((vxlan_vni n.tunnel_info * 2 ^ 8) % 2 ^ 32);
    outer_src_ip = vxlan_local n.tunnel_info;
    outer_dst_ip = vxlan_remote n.tunnel_info;
    outer_dst_mac = outer_fake_dmac;
    outer_src_mac = outer_fake_smac;
  }

  -- The end of ip_forward, from what gateway_mac gave.
  abbrev pub forward_mac : ℕ → FibNhop → Rx → ℤ × Option Mac → Run Rx
  forward_mac v n s (ret, none) = if is_neg ret then no_arp v n s else fault
  forward_mac v n s (ret, some d) =
      if is_neg ret then no_arp v n s else ok (record s { info = encap d n s.info })

  -- The next hop has been read.
  unfoldable pub forward_nhop : ℕ → lib.Mbuf → Rx → FibNhop → Run Rx
  forward_nhop v m s n =
      if ip_tunnel_inner_ether_need n.tunnel_info
      then elim (lib.prepend m ether_hdr_size) [
        | none ↦ stat_inc vxlan_tx_mbuf_prepare_nospace s
        | some m' ↦ gateway_mac v n >>= forward_mac v n s
      ]
      else ok s

  unfoldable pub ip_forward : ℕ → lib.Mbuf → FibRes → Rx → Run Rx
  unfolding forward_nhop
  ip_forward v m r s =
      value (mpath_load r (fib_res_select_mpath r (lib.rss m))) w >>= forward_nhop v m s

  -- The end of a round of ip_forward_m: the state, and whether the loop goes on.
  abbrev pub round_mac : ℕ → FibNhop → Rx → ℤ × Option Mac → Run (Rx × Bool)
  round_mac v n s (ret, d) =
      if is_neg ret then (do s' ← no_arp v n s; ok (s', Bool.false)) else ok (s, true)

  -- A round of ip_forward_m: the packet, the state, and whether the loop goes on.
  unfoldable pub forward_round : ℕ → lib.Mbuf → Rx → FibNhop → Run (lib.Mbuf × Rx × Bool)
  forward_round v m s n =
      if ip_tunnel_inner_ether_need n.tunnel_info
      then elim (lib.prepend m ether_hdr_size) [
        | none ↦ do s' ← stat_inc vxlan_tx_mbuf_prepare_nospace s; ok (m, s', Bool.false)
        | some m' ↦ do (s', more) ← gateway_mac v n >>= round_mac v n s; ok (m', s', more)
      ]
      else ok (m, s, true)

  -- The loop of ip_forward_m over `k` paths from `i` on.
  unfoldable pub forward_loop : ℕ → FibRes → (k i : ℕ) → lib.Mbuf → Rx → Run Rx
  unfolding forward_round
  forward_loop v r zero i m s = ok s
  forward_loop v r (suc k) i m s = elim (value (mpath_load r i) w >>= forward_round v m s) [
    | fault ↦ fault
    | ok (m', s', more) ↦
        let rest = forward_loop v r k (i + 1) m' s' in if more then rest else ok s'
  ]

  unfoldable pub ip_forward_m : ℕ → lib.Mbuf → FibRes → Rx → Run Rx
  unfolding forward_loop
  ip_forward_m v m r s = forward_loop v r r.mpath_cnt 0 m s
