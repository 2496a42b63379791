-- ===== src/Receive/Decide/Hop.antt =====
-- agent/zdw_agent/pmd.c: ip_forward against the decision by a next hop.
use tao_p4code.Base.{
  ℕ, ◌+◌, ◌*◌, ◌%◌, ◌^◌, ◌≡◌, inl, inr, refl, ap, Option, none, some, ◌++◌, [], ◌∷◌, arith, ◌==◌,
  update, Bool-cases, Option-cases,
}
use tao_p4code.Types.{Mac, FibNhop, NeighKey}
use tao_p4code.World.{Env, World, Run, ok, fault}
use tao_p4code.Pmd.{ether_need}
use tao_p4code.Neigh.Safety.{IsSound}
use tao_p4code.Receive.{PmdLib, Rx, ◌>>=◌, overlay_ip_forward_noarp, ntb_neigh_lookup}
use tao_p4code.Receive.Forward.{
  encap, no_arp, gateway_mac, forward_mac, forward_nhop, ether_hdr_size,
}
use tao_p4code.Receive.Decide.{
  encapsulation, probe, send, by_neigh, entry_of, by_gateway, by_nhop, probe_sent, perform,
}

counted_probe :
    (s : Rx) (vrf_id gw : ℕ) (o : Option (ℕ → ℕ))
    → (elim o as (λ o. Run Rx) [
      | none ↦ fault
      | some f ↦ ok (record s {
        stats = some (update f overlay_ip_forward_noarp (f overlay_ip_forward_noarp + 1));
      })
    ]
        >>= λ t. ok (record t { probes = t.probes ++ (vrf_id, gw) ∷ [] }))
      ≡ probe_sent s vrf_id gw o
counted_probe s vrf_id gw none = refl
counted_probe s vrf_id gw (some f) = refl

module _ {env : Env} (lib : PmdLib env) (w : World env) where
  vni_word : (v : ℕ) → (v % 2 ^ 24 * 2 ^ 8) % 2 ^ 32 ≡ v % 2 ^ 24 * 256
  vni_word v = omega arith

  -- The address of the gateway is known.
  send-perform :
      (d : Mac) (n : FibNhop) (s : Rx)
      → ok (record s { info = encap lib w d n s.info }) ≡ perform lib w (send d n) s
  unfolding perform
  send-perform d n s =
      ap
        (λ (v : ℕ). ok (record s {
          info = record (encapsulation lib w d n s.info) { vni_encp = lib.cpu_to_be_32 v };
        }))
        (vni_word n.tunnel_info.word2)

  no_arp-perform :
      (v : ℕ) (s : Rx) (n : FibNhop)
      → no_arp lib w v n s ≡ perform lib w (probe (w.vrfs v).dp.vrf_id n.gateway) s
  unfolding perform
  no_arp-perform v s n = counted_probe s (w.vrfs v).dp.vrf_id n.gateway s.stats

  -- A run that takes the address of the gateway.
  abbrev hop_key : ℕ → FibNhop → NeighKey
  hop_key v n = record { vrfid = (w.vrfs v).dp.vrf_id; nexthop = n.gateway }

  neigh-perform :
      (v : ℕ) (s : Rx) (n : FibNhop)
      → IsSound w
      → (ntb_neigh_lookup w (w.vrfs v).dp.vrf_id n.gateway >>= forward_mac lib w v n s)
        ≡ perform lib w
            (by_neigh lib w
              (w.vrfs v).dp.vrf_id
              n
              (entry_of lib w (env.neigh.lookup w.neigh_tbl (hop_key v n))))
            s
  unfolding perform ntb_neigh_lookup
  neigh-perform v s n sound = elim (Option-cases (env.neigh.lookup w.neigh_tbl (hop_key v n))) [
    | inl e ↦ rw (e, ntb_neigh_lookup) (no_arp-perform v s n)
    | inr (p, e) ↦
        let (a, live, _) = sound.live (hop_key v n) p e in
        elim (Bool-cases a.arp_valid) [
          | inl valid ↦ rw (e, live, valid, ntb_neigh_lookup) (send-perform a.d_addr n s)
          | inr unknown ↦ rw (e, live, unknown, ntb_neigh_lookup) (no_arp-perform v s n)
        ]
  ]

  gateway-perform :
      (v : ℕ) (s : Rx) (n : FibNhop)
      → IsSound w
      → (gateway_mac lib w v n >>= forward_mac lib w v n s)
        ≡ perform lib w (by_gateway lib w (w.vrfs v).dp.vrf_id n) s
  unfolding perform
  gateway-perform v s n sound = elim (Bool-cases (n.gateway == 0)) [
    | inl e ↦ rw e (send-perform w.def_gw_mac n s)
    | inr e ↦ rw e (neigh-perform v s n sound)
  ]

  -- The end of ip_forward.
  pub forward_nhop-perform :
      (v : ℕ) (m x : lib.Mbuf) (s : Rx) (n : FibNhop)
      → IsSound w
      → lib.prepend m ether_hdr_size ≡ some x
      → forward_nhop lib w v m s n ≡ perform lib w (by_nhop lib w (w.vrfs v).dp.vrf_id n) s
  unfolding forward_nhop perform
  forward_nhop-perform v m x s n sound room = elim (Bool-cases (ether_need n.tunnel_info.type)) [
    | inl e ↦ rw (e, room, forward_nhop) (gateway-perform v s n sound)
    | inr e ↦ rw (e, forward_nhop) refl
  ]
