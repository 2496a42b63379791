-- ===== src/Receive/Steps.antt =====
-- The receive functions of agent/zdw_agent/pmd.c, from ol_ip_rcv up to netio_rx. They take the state
-- of the agent, which they only read, and the state that they write.
use tao_p4code.Base.{
  ℕ, ◌+◌, ◌-◌, ◌*◌, ◌/◌, ◌%◌, ◌^◌, ℤ, true, Option, none, some, List, ◌==◌, if◌then◌else◌, is_zero,
  length,
}
use tao_p4code.Types.{FibRes, fib_res_is_reject, fib_res_is_mroute, vxlan, TunnelInfo, tunnel_vxlan}
use tao_p4code.World.{Env, World, Run, ok, fault}
use tao_p4code.Netio.{ipproto_udp, vxlan_port}
use tao_p4code.Receive.Forward.{ether_hdr_size, ip_forward, ip_forward_m}
use tao_p4code.Receive.{
  PmdLib, Metadata, zero_metadata, Rx, ◌>>=◌, ntb_route_lookup, ntb_tunnel_map_vrf_lookup,
}

abbrev pub udp_hdr_size : ℕ
udp_hdr_size = 8

abbrev pub vxlan_hdr_size : ℕ
vxlan_hdr_size = 8

abbrev pub ether_type_ipv4 : ℕ
ether_type_ipv4 = 0x0800

-- What `recv` gives: the bytes of a packet, or an error.
pub data Recv : Type 0 where
  got : List ℕ → Recv
  failed : Recv

-- The tunnel by which the packet came; `remote` is its destination and `local` its source.
abbrev pub in_tunnel : (dst src vni tos : ℕ) → TunnelInfo → TunnelInfo
in_tunnel dst src vni tos t = record t {
  type = vxlan;
  word0 = dst;
  word1 = src;
  word2 = vni + (tos / 4) * 2 ^ 24;
}

-- The lock is let go, and the buffer goes back to the pool.
abbrev pub give_back : Rx → Rx
give_back s = record s { readers = s.readers - 1; mbufs = s.mbufs - 1 }

-- The lock is taken for reading; so is, before that, a buffer from the pool.
abbrev pub take_lock : Rx → Rx
take_lock s = record s { readers = s.readers + 1 }

abbrev pub take_mbuf : Rx → Rx
take_mbuf s = record s { mbufs = s.mbufs + 1 }

module _ {env : Env} (lib : PmdLib env) where
  pub record Packet : Type 0 where
    pub mbuf : lib.Mbuf
    pub md : Metadata

  -- Loads through the pointer to the packet's bytes.
  unfoldable pub load8 : lib.Mbuf → ℕ → Run ℕ
  load8 m k = elim (lib.byte m k) [ none ↦ fault | some b ↦ ok b ]

  unfoldable pub load16 : lib.Mbuf → ℕ → Run ℕ
  unfolding load8
  load16 m k = do a ← load8 m k; b ← load8 m (k + 1); ok (lib.host16 a b)

  unfoldable pub load32 : lib.Mbuf → ℕ → Run ℕ
  unfolding load8
  load32 m k = do
    a ← load8 m k
    b ← load8 m (k + 1)
    c ← load8 m (k + 2)
    d ← load8 m (k + 3)
    ok (lib.host32 a b c d)

  -- A call of `rte_pktmbuf_adj` whose result is not looked at.
  unfoldable pub adj_unchecked : lib.Mbuf → ℕ → lib.Mbuf
  adj_unchecked m n = elim (lib.adj m n) [ none ↦ m | some m' ↦ m' ]

module _ {env : Env} (lib : PmdLib env) (w : World env) where
  -- What ol_ip_rcv does with the result of the lookup.
  unfoldable pub route_rcv : ℕ → lib.Mbuf → Rx → ℤ × FibRes → Run Rx
  unfolding ip_forward ip_forward_m
  route_rcv v m s (ret, r) =
      if is_zero ret
      then (if fib_res_is_reject r
          then ok s
          else if fib_res_is_mroute r
          then ip_forward_m lib w v m r s
          else ip_forward lib w v m r s)
      else ok s

  unfoldable pub ol_ip_rcv : Packet lib → Rx → Run Rx
  unfolding route_rcv
  ol_ip_rcv pkt s = elim pkt.md.vrf_dp [
    | none ↦ fault
    | some v ↦ do
      dip ← load32 lib pkt.mbuf 16
      r ← ntb_route_lookup w v dip
      route_rcv v pkt.mbuf s r
  ]

  unfoldable pub ol_ether_rcv : Packet lib → Rx → Run Rx
  unfolding ol_ip_rcv
  ol_ether_rcv pkt s = ol_ip_rcv (record pkt { mbuf = adj_unchecked lib pkt.mbuf ether_hdr_size }) s

  unfoldable pub overlay_pkt_rcv : Packet lib → Rx → Run Rx
  unfolding ol_ether_rcv
  overlay_pkt_rcv pkt s = do
    ether_type ← load16 lib pkt.mbuf 12
    if lib.be_to_cpu_16 ether_type == ether_type_ipv4 then ol_ether_rcv pkt s else ok s

  -- vxlan_tunnel_rcv behind the lookup of the VRF: `outer` is the packet with its outer header, `m`
  -- without the outer IP and UDP headers.
  unfoldable pub vrf_rcv : (outer m : lib.Mbuf) → Metadata → (vni : ℕ) → Rx → Option ℕ → Run Rx
  unfolding overlay_pkt_rcv
  vrf_rcv outer m md vni s none = ok s
  vrf_rcv outer m md vni s (some v) = do
    dst ← load32 lib outer 16
    src ← load32 lib outer 12
    tos ← load8 lib outer 1
    overlay_pkt_rcv
        (record {
          mbuf = adj_unchecked lib m vxlan_hdr_size;
          md = record {
            in_tunnel_info = in_tunnel dst src vni tos md.in_tunnel_info;
            vrf_dp = some v;
          };
        })
        s

  -- vxlan_tunnel_rcv behind the test of the port: `m` is without the outer IP header.
  unfoldable pub vni_rcv : (outer m : lib.Mbuf) → Metadata → Rx → Run Rx
  unfolding vrf_rcv
  vni_rcv outer m md s = elim (lib.adj m udp_hdr_size) [
    | none ↦ fault
    | some m' ↦ do
      vx_vni ← load32 lib m' 4
      let vni = env.be_to_cpu vx_vni / 2 ^ 8
      v ← ntb_tunnel_map_vrf_lookup w tunnel_vxlan vni
      vrf_rcv outer m' md vni s v
  ]

  unfoldable pub vxlan_tunnel_rcv : Packet lib → Rx → Run Rx
  unfolding vni_rcv
  vxlan_tunnel_rcv pkt s = do
    version_ihl ← load8 lib pkt.mbuf 0
    elim (lib.adj pkt.mbuf ((version_ihl % 16) * 4)) [
      | none ↦ fault
      | some m ↦ do
        dst_port ← load16 lib m 2
        if dst_port == env.cpu_to_be_16 vxlan_port then vni_rcv pkt.mbuf m pkt.md s else ok s
    ]

  unfoldable pub tunnel_rcv : Packet lib → Rx → Run Rx
  unfolding vxlan_tunnel_rcv
  tunnel_rcv pkt s = do
    next_proto_id ← load8 lib pkt.mbuf 9
    if next_proto_id == ipproto_udp then vxlan_tunnel_rcv pkt s else ok s

  -- The packet is handled under the lock, and given back.
  unfoldable pub locked_rcv : lib.Mbuf → Rx → Run Rx
  unfolding tunnel_rcv
  locked_rcv m s = do
    s' ← tunnel_rcv (record { mbuf = m; md = zero_metadata }) (take_lock s)
    ok (give_back s')

  -- `rte_pktmbuf_alloc` gives the first argument. After an error of `recv` the function goes on, with
  -- the length -1 in a field of 16 bits.
  unfoldable pub netio_rx : Option lib.Mbuf → Recv → Rx → Run Rx
  unfolding locked_rcv
  netio_rx none r s = ok s
  netio_rx (some m) (got bytes) s =
      locked_rcv (lib.set_len (lib.received m bytes) (length bytes % 2 ^ 16)) (take_mbuf s)
  netio_rx (some m) failed s =
      locked_rcv (lib.set_len m (2 ^ 16 - 1)) (record (take_mbuf s) { loopbreak = true })
