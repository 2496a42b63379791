-- ===== src/Receive/Parse.antt =====
-- How the receive functions take a packet apart: from bytes to the fields that the lookups get.
pub mod Whole
pub mod Truncated
use mathlib.Core.Option.{some-injective}
use tao_p4code.Base.{
  ℕ, inl, inr, ◌+◌, ◌*◌, ◌/◌, ◌%◌, ◌^◌, ◌<◌, ◌≤◌, ◌≡◌, refl, subst, sym, ap, ◌∙◌, Option, none,
  some, List, arith, get_elem?, length, ◌==◌, if◌then◌else◌, ==_iff,
}
use tao_p4code.Types.{tunnel_vxlan}
use tao_p4code.World.{Env, World, Run, ok, fault}
use tao_p4code.Netio.{ipproto_udp, vxlan_port, load_half, half_of, udp_filter, accept_all}
use tao_p4code.Netio.Accept.{IsVxlan, udp_filter-Verdict}
use tao_p4code.Receive.{
  PmdLib, Metadata, zero_metadata, Rx, ◌>>=◌, ntb_route_lookup, ntb_tunnel_map_vrf_lookup,
}
use tao_p4code.Receive.Steps.{
  Packet, load8, load16, load32, adj_unchecked, in_tunnel, vrf_rcv, vni_rcv, vxlan_tunnel_rcv,
  tunnel_rcv, overlay_pkt_rcv, ol_ether_rcv, ol_ip_rcv, route_rcv, give_back, take_lock, take_mbuf,
  locked_rcv, netio_rx, got, ether_type_ipv4, vxlan_hdr_size, udp_hdr_size,
}
use tao_p4code.Receive.Forward.{ether_hdr_size}
use tao_p4code.Receive.Frame.{
  byte_at, IsBytes, lt-get_elem, Window, received-Window, adj-Window, load8-Window, load16-Window,
  load32-Window, adj_done,
}

-- The length of the outer IP header.
abbrev pub header_len : List ℕ → ℕ
header_len pkt = (byte_at pkt 0 % 16) * 4

-- The VNI of the VXLAN header, and the type of the inner Ethernet header.
abbrev pub vni_of : List ℕ → ℕ
vni_of pkt =
    let i = header_len pkt + 12 in
    (byte_at pkt i * 256 + byte_at pkt (i + 1)) * 256 + byte_at pkt (i + 2)

abbrev pub ether_type_of : List ℕ → ℕ
ether_type_of pkt = let i = header_len pkt + 28 in byte_at pkt i * 256 + byte_at pkt (i + 1)

-- The fields that a packet for the VXLAN port has, by `byte_at`.
pub record VxlanBytes (pkt : List ℕ) : Type 0 where
  pub proto : byte_at pkt 9 ≡ ipproto_udp
  pub nine : 9 < length pkt
  pub low : header_len pkt + 3 < length pkt
  pub port :
      byte_at pkt (header_len pkt + 2) * 256 + byte_at pkt (header_len pkt + 2 + 1) ≡ vxlan_port

load_half-inv :
    (pkt : List ℕ) (k v : ℕ)
    → load_half pkt k ≡ some v
    → (hi lo : ℕ) × (get_elem? pkt k ≡ some hi)
      × (get_elem? pkt (k + 1) ≡ some lo)
      × (hi * 256 + lo ≡ v)
load_half-inv pkt k v e = go (get_elem? pkt k) (get_elem? pkt (k + 1)) refl refl e
  where
    go :
        (a b : Option ℕ)
        → get_elem? pkt k ≡ a
        → get_elem? pkt (k + 1) ≡ b
        → half_of a b ≡ some v
        → (hi lo : ℕ) × (get_elem? pkt k ≡ some hi)
          × (get_elem? pkt (k + 1) ≡ some lo)
          × (hi * 256 + lo ≡ v)
    go (some hi) (some lo) p q e = (hi, lo, p, q, some-injective _ v e)
    go (some hi) none p q e = absurd (cc)
    go none b p q e = absurd (cc)

pub IsVxlan-VxlanBytes : (pkt : List ℕ) → IsVxlan pkt → VxlanBytes pkt
IsVxlan-VxlanBytes pkt h =
    let (nine, proto) = lt-get_elem pkt 9 ipproto_udp h.udp in
    let (zero, ihl) = lt-get_elem pkt 0 h.ihl h.ihl_at in
    let at = 4 * (h.ihl % 16) + 2 in
    let same : at ≡ header_len pkt + 2 = omega (arith, ihl) in
    let (hi, lo, first, second, sum) = load_half-inv pkt at vxlan_port h.port in
    let (low, is_hi) = lt-get_elem pkt at hi first in
    let (low', is_lo) = lt-get_elem pkt (at + 1) lo second in
    record {
      proto = proto;
      nine = nine;
      low = omega (arith, low', same);
      port =
          subst (λ i. byte_at pkt i * 256 + byte_at pkt (i + 1) ≡ vxlan_port) same
            (omega (arith, is_hi, is_lo, sum));
    }

-- What the filter keeps.
pub kept-IsVxlan : (pkt : List ℕ) → udp_filter pkt ≡ accept_all → IsVxlan pkt
kept-IsVxlan pkt kept = elim (udp_filter-Verdict pkt) [
  | inl (_, vx) ↦ vx
  | inr (dropped, _) ↦ absurd (omega (arith, kept, dropped))
]

-- A packet that the filter keeps and that is long enough for its headers: outer IP and UDP, VXLAN, Ethernet and inner IP.
pub record IsFrame (pkt : List ℕ) : Type 0 where
  pub kept : udp_filter pkt ≡ accept_all
  pub bytes : IsBytes pkt
  pub complete : header_len pkt + 50 ≤ length pkt
  pub short : length pkt < 2 ^ 16

module _ {env : Env} (lib : PmdLib env) where
  -- The destination of the inner IP header, as it is loaded.
  abbrev pub inner_dst : List ℕ → ℕ
  inner_dst pkt =
      let i = header_len pkt + 46 in
      lib.host32 (byte_at pkt i) (byte_at pkt (i + 1)) (byte_at pkt (i + 2)) (byte_at pkt (i + 3))

  module _ (w : World env) (pkt : List ℕ) where
    pub tunnel_rcv-eq :
        (m : lib.Mbuf) (md : Metadata) (s : Rx)
        → VxlanBytes pkt
        → Window lib pkt m 0
        → tunnel_rcv lib w (record { mbuf = m; md = md }) s
          ≡ vxlan_tunnel_rcv lib w (record { mbuf = m; md = md }) s
    unfolding tunnel_rcv
    tunnel_rcv-eq m md s vx win =
        rw (load8-Window lib pkt m 0 9 9 win (omega arith) vx.nine, vx.proto, tunnel_rcv) refl

    -- The packet behind its outer IP header.
    pub vxlan_tunnel_rcv-eq :
        (m m' : lib.Mbuf) (md : Metadata) (s : Rx)
        → VxlanBytes pkt
        → IsBytes pkt
        → Window lib pkt m 0
        → lib.adj m (header_len pkt) ≡ some m'
        → Window lib pkt m' (header_len pkt)
        → vxlan_tunnel_rcv lib w (record { mbuf = m; md = md }) s ≡ vni_rcv lib w m m' md s
    unfolding vxlan_tunnel_rcv
    vxlan_tunnel_rcv-eq m m' md s vx bytes win adj win' =
        let is : lib.host16 (byte_at pkt (header_len pkt + 2))
              (byte_at pkt (header_len pkt + 2 + 1))
            ≡ env.cpu_to_be_16 vxlan_port =
          (lib.host16-cpu_to_be _ _ vxlan_port (bytes (header_len pkt + 2))
              (bytes (header_len pkt + 2 + 1)) (omega arith)).1
            vx.port in
        rw
          (
            load8-Window lib pkt m 0 0 0 win (omega arith) (omega (arith, vx.nine)),
            adj,
            load16-Window lib pkt m' (header_len pkt) 2 (header_len pkt + 2) win' refl
                (omega (arith, vx.low)),
            (==_iff _ _).1 is,
            vxlan_tunnel_rcv,
          )
          refl

    -- What the load of the VXLAN header's second word gives.
    vni_eq :
        IsBytes pkt
        → env.be_to_cpu (
              lib.host32
                (byte_at pkt (header_len pkt + 12))
                (byte_at pkt (header_len pkt + 12 + 1))
                (byte_at pkt (header_len pkt + 12 + 2))
                (byte_at pkt (header_len pkt + 12 + 3)))
            / 2 ^ 8
          ≡ vni_of pkt
    vni_eq bytes =
        let i = header_len pkt + 12 in
        omega (
          arith,
          bytes (i + 3),
          lib.be_to_cpu-host32 (byte_at pkt i) (byte_at pkt (i + 1)) (byte_at pkt (i + 2))
              (byte_at pkt (i + 3)) (bytes i) (bytes (i + 1)) (bytes (i + 2)) (bytes (i + 3)),
        )

    -- The packet behind its outer UDP header.
    pub vni_rcv-eq :
        (outer m m' : lib.Mbuf) (md : Metadata) (s : Rx)
        → IsBytes pkt
        → header_len pkt + 15 < length pkt
        → lib.adj m udp_hdr_size ≡ some m'
        → Window lib pkt m' (header_len pkt + 8)
        → vni_rcv lib w outer m md s ≡ (
            ntb_tunnel_map_vrf_lookup w tunnel_vxlan (vni_of pkt)
            >>= vrf_rcv lib w outer m' md (vni_of pkt) s)
    unfolding vni_rcv
    vni_rcv-eq outer m m' md s bytes low adj win =
        rw
          (
            adj,
            load32-Window lib pkt m' (header_len pkt + 8) 4 (header_len pkt + 12) win (omega arith)
                (omega (arith, low)),
            vni_eq bytes,
            vni_rcv,
          )
          refl

    -- The packet behind its VXLAN header, with the VRF of its tunnel.
    unfoldable pub inner_md : Metadata → ℕ → Metadata
    inner_md md v = record {
      in_tunnel_info =
          in_tunnel
            (lib.host32 (byte_at pkt 16) (byte_at pkt (16 + 1)) (byte_at pkt (16 + 2))
              (byte_at pkt (16 + 3)))
            (lib.host32 (byte_at pkt 12) (byte_at pkt (12 + 1)) (byte_at pkt (12 + 2))
              (byte_at pkt (12 + 3)))
            (vni_of pkt) (byte_at pkt 1) md.in_tunnel_info;
      vrf_dp = some v;
    }

    pub vrf_rcv-eq :
        (outer m m' : lib.Mbuf) (md : Metadata) (s : Rx) (v : ℕ)
        → 19 < length pkt
        → Window lib pkt outer 0
        → lib.adj m vxlan_hdr_size ≡ some m'
        → vrf_rcv lib w outer m md (vni_of pkt) s (some v)
          ≡ overlay_pkt_rcv lib w (record { mbuf = m'; md = inner_md md v }) s
    unfolding vrf_rcv inner_md
    vrf_rcv-eq outer m m' md s v low win adj =
        rw
          (
            load32-Window lib pkt outer 0 16 16 win (omega arith) low,
            load32-Window lib pkt outer 0 12 12 win (omega arith) (omega (arith, low)),
            load8-Window lib pkt outer 0 1 1 win (omega arith) (omega (arith, low)),
            vrf_rcv,
          )
          (ap (λ (x : lib.Mbuf). overlay_pkt_rcv lib w (record { mbuf = x; md = inner_md md v }) s)
            (adj_done lib m m' vxlan_hdr_size adj))

    -- The packet behind its inner Ethernet header.
    pub overlay_pkt_rcv-eq :
        (m m' : lib.Mbuf) (md : Metadata) (s : Rx) (v : ℕ)
        → IsBytes pkt
        → header_len pkt + 49 < length pkt
        → md.vrf_dp ≡ some v
        → Window lib pkt m (header_len pkt + 16)
        → lib.adj m ether_hdr_size ≡ some m'
        → Window lib pkt m' (header_len pkt + 30)
        → overlay_pkt_rcv lib w (record { mbuf = m; md = md }) s ≡ (
            if ether_type_of pkt == ether_type_ipv4
            then (ntb_route_lookup w v (inner_dst pkt) >>= route_rcv lib w v m' s)
            else ok s)
    unfolding overlay_pkt_rcv ol_ether_rcv ol_ip_rcv
    overlay_pkt_rcv-eq m m' md s v bytes low vrf win adj win' =
        let i = header_len pkt + 28 in
        let h = header_len pkt + 46 in
        rw
          (
            load16-Window lib pkt m (header_len pkt + 16) 12 i win (omega arith)
                (omega (arith, low)),
            lib.be_to_cpu-host16 (byte_at pkt i) (byte_at pkt (i + 1)) (bytes i) (bytes (i + 1)),
            overlay_pkt_rcv,
          )
          (ap (λ (r : Run Rx). if ether_type_of pkt == ether_type_ipv4 then r else ok s)
            (rw
              (
                vrf,
                adj_done lib m m' ether_hdr_size adj,
                load32-Window lib pkt m' (header_len pkt + 30) 16 h win' (omega arith)
                    (omega (arith, low)),
                ol_ether_rcv,
                ol_ip_rcv,
              )
              refl))

    pub vrf_rcv-none :
        (outer m : lib.Mbuf) (md : Metadata) (s : Rx)
        → vrf_rcv lib w outer m md (vni_of pkt) s none ≡ ok s
    unfolding vrf_rcv
    vrf_rcv-none outer m md s = refl
