-- ===== src/Receive/Parse/Whole.antt =====
-- agent/zdw_agent/pmd.c: how netio_rx takes a complete packet apart.

use tao_p4code.Base.{
  ℕ, ◌+◌, ◌%◌, ◌^◌, ◌≤◌, ◌≡◌, refl, ap, ◌∙◌, Option, none, some, List, arith, length, ◌==◌,
  if◌then◌else◌,
}
use tao_p4code.Types.{tunnel_vxlan}
use tao_p4code.World.{Env, World, Run, ok, fault}
use tao_p4code.Receive.{
  PmdLib, Metadata, zero_metadata, Rx, ◌>>=◌, ntb_route_lookup, ntb_tunnel_map_vrf_lookup,
}
use tao_p4code.Receive.Steps.{
  vrf_rcv, tunnel_rcv, route_rcv, give_back, take_lock, take_mbuf, locked_rcv, netio_rx, got,
  ether_type_ipv4, vxlan_hdr_size, udp_hdr_size,
}
use tao_p4code.Receive.Forward.{ether_hdr_size}
use tao_p4code.Receive.Frame.{Window, received-Window, adj-Window}
use tao_p4code.Receive.Parse.{
  header_len, vni_of, ether_type_of, IsVxlan-VxlanBytes, IsFrame, inner_dst, tunnel_rcv-eq,
  vxlan_tunnel_rcv-eq, vni_rcv-eq, inner_md, vrf_rcv-eq, overlay_pkt_rcv-eq, vrf_rcv-none,
  kept-IsVxlan,
}

module _ {env : Env} (lib : PmdLib env) (w : World env) (pkt : List ℕ) where
  -- What becomes of a packet, by the VRF of its tunnel; `m` is the inner IP packet.
  unfoldable pub frame_rcv : lib.Mbuf → Rx → Option ℕ → Run Rx
  frame_rcv m s none = ok s
  frame_rcv m s (some v) =
      if ether_type_of pkt == ether_type_ipv4
      then (ntb_route_lookup w v (inner_dst lib pkt) >>= route_rcv lib w v m s)
      else ok s

  after_lookup :
      (outer m m' u : lib.Mbuf) (md : Metadata) (s : Rx)
      → IsFrame pkt
      → Window lib pkt outer 0
      → lib.adj m vxlan_hdr_size ≡ some m'
      → Window lib pkt m' (header_len pkt + 16)
      → lib.adj m' ether_hdr_size ≡ some u
      → Window lib pkt u (header_len pkt + 30)
      → (r : Run (Option ℕ))
      → (r >>= vrf_rcv lib w outer m md (vni_of pkt) s) ≡ (r >>= frame_rcv u s)
  unfolding frame_rcv inner_md
  after_lookup outer m m' u md s frame win adj win' adj' last fault = refl
  after_lookup outer m m' u md s frame win adj win' adj' last (ok none) =
      vrf_rcv-none lib w pkt outer m md s
  after_lookup outer m m' u md s frame win adj win' adj' last (ok (some v)) =
      vrf_rcv-eq lib w pkt outer m m' md s v (omega (arith, frame.complete)) win adj
      ∙ overlay_pkt_rcv-eq lib w pkt m' u (inner_md lib w pkt md v) s v frame.bytes
          (omega (arith, frame.complete)) refl win' adj' last

  -- The buffers of the packet behind its headers, one after the other.
  record Stripped (m : lib.Mbuf) : Type 0 where
    udp : lib.Mbuf
    vxlan : lib.Mbuf
    ether : lib.Mbuf
    ip : lib.Mbuf
    adj_udp : lib.adj m (header_len pkt) ≡ some udp
    adj_vxlan : lib.adj udp udp_hdr_size ≡ some vxlan
    adj_ether : lib.adj vxlan vxlan_hdr_size ≡ some ether
    adj_ip : lib.adj ether ether_hdr_size ≡ some ip
    win_udp : Window lib pkt udp (header_len pkt)
    win_vxlan : Window lib pkt vxlan (header_len pkt + 8)
    win_ether : Window lib pkt ether (header_len pkt + 16)
    win_ip : Window lib pkt ip (header_len pkt + 30)

  strip : (m : lib.Mbuf) → IsFrame pkt → Window lib pkt m 0 → Stripped m
  strip m frame win =
      let h = header_len pkt in
      let c = frame.complete in
      let (m1, adj1, win1) = adj-Window lib pkt m 0 h h win (omega arith) (omega (arith, c)) in
      let (m2, adj2, win2) = adj-Window lib pkt m1 h 8 (h + 8) win1 refl (omega (arith, c)) in
      let (m3, adj3, win3) =
        adj-Window lib pkt m2 (h + 8) 8 (h + 16) win2 (omega arith) (omega (arith, c)) in
      let (m4, adj4, win4) =
        adj-Window lib pkt m3 (h + 16) 14 (h + 30) win3 (omega arith) (omega (arith, c)) in
      record {
        udp = m1;
        vxlan = m2;
        ether = m3;
        ip = m4;
        adj_udp = adj1;
        adj_vxlan = adj2;
        adj_ether = adj3;
        adj_ip = adj4;
        win_udp = win1;
        win_vxlan = win2;
        win_ether = win3;
        win_ip = win4;
      }

  tunnel_rcv-parsed :
      (m : lib.Mbuf) (md : Metadata) (s : Rx)
      → IsFrame pkt
      → Window lib pkt m 0
      → (t : Stripped m)
      → tunnel_rcv lib w (record { mbuf = m; md = md }) s
        ≡ (ntb_tunnel_map_vrf_lookup w tunnel_vxlan (vni_of pkt) >>= frame_rcv t.ip s)
  tunnel_rcv-parsed m md s frame win t =
      let vx = IsVxlan-VxlanBytes pkt (kept-IsVxlan pkt frame.kept) in
      tunnel_rcv-eq lib w pkt m md s vx win
      ∙ vxlan_tunnel_rcv-eq lib w pkt m t.udp md s vx frame.bytes win t.adj_udp t.win_udp
      ∙ vni_rcv-eq lib w pkt m t.udp t.vxlan md s frame.bytes (omega (arith, frame.complete))
          t.adj_vxlan t.win_vxlan
      ∙ after_lookup m t.vxlan t.ether t.ip md s frame win t.adj_ether t.win_ether t.adj_ip t.win_ip
          (ntb_tunnel_map_vrf_lookup w tunnel_vxlan (vni_of pkt))

  locked_rcv-parsed :
      (m : lib.Mbuf) (s : Rx)
      → IsFrame pkt
      → Window lib pkt m 0
      → (t : Stripped m)
      → locked_rcv lib w m s ≡ (
          ntb_tunnel_map_vrf_lookup w tunnel_vxlan (vni_of pkt)
          >>= frame_rcv t.ip (take_lock s)
          >>= λ t. ok (give_back t))
  unfolding locked_rcv
  locked_rcv-parsed m s frame win t =
      ap (λ (r : Run Rx). r >>= λ t. ok (give_back t))
        (tunnel_rcv-parsed m zero_metadata (take_lock s) frame win t)

  -- A packet that stands whole in a buffer is looked up by the VNI of its VXLAN header, and then by
  -- the destination of its inner IP header, if its inner Ethernet header says that there is one. The
  -- buffer from which it is forwarded has room for another Ethernet header.
  pub netio_rx-parsed :
      (m : lib.Mbuf) (s : Rx)
      → IsFrame pkt
      → length pkt ≤ lib.room m
      → (u : lib.Mbuf) × ((x : lib.Mbuf) × (lib.prepend u ether_hdr_size ≡ some x))
        × (netio_rx lib w (some m) (got pkt) s ≡ (
            ntb_tunnel_map_vrf_lookup w tunnel_vxlan (vni_of pkt)
            >>= frame_rcv u (take_lock (take_mbuf s))
            >>= λ t. ok (give_back t)))
  unfolding netio_rx
  netio_rx-parsed m s frame fits =
      let m0 = lib.set_len (lib.received m pkt) (length pkt) in
      let win = received-Window lib pkt m fits in
      let t = strip m0 frame win in
      let whole : length pkt % 2 ^ 16 ≡ length pkt = omega (arith, frame.short) in
      (
        t.ip,
        lib.prepend-adj t.ether t.ip 14 14 t.adj_ip (omega arith),
        ap (λ (n : ℕ). locked_rcv lib w (lib.set_len (lib.received m pkt) n) (take_mbuf s)) whole
            ∙ locked_rcv-parsed m0 (take_mbuf s) frame win t,
      )
