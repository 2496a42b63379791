-- ===== src/Tunnel/Mapping.antt =====
-- agent/tunnel_map.c: ntb_tunnel_map_vrf, and the lookup of a tunnel.
use native.Mathlib.Decide.{ℕ_discrete}
use tao_p4code.Base.{
  if◌then◌else◌, ℕ, ℤ, pos, suc, ◌<◌, ◌≡◌, ◌≢◌, refl, sym, ap, ◌∙◌, inl, inr, true, false, none,
  some, List, arith, Bool-cases, ◌==◌, update, update_self, inc32, ◌∷◌, ◌↔◌, ==_refl,
}
use tao_p4code.Types.{TunnelType, TunnelMapKey, NtbTunnelInfo, ntb_nr_vrf, zero_ntb_tunnel_info}
use tao_p4code.Errno.{ntb_err_code, ntb_tunnel_inused}
use tao_p4code.Dpdk.Owned.{Owned}
use tao_p4code.World.{set_dp, Env, World, Run, ok, shc_hal_call}
use tao_p4code.Vrf.Table.{ntb_vrf_lookup, ntb_vrf_dp_get_by_id}
use tao_p4code.Vrf.Table.Attributes.{get_by_id-suc}
use tao_p4code.Tunnel.{
  tunnel_add_request, tunnel_del_request, map_key, shc_hal_tunnel_map_vrf_entry_add,
  shc_hal_tunnel_map_vrf_entry_del, lookup_request, tunnel_new, ntb_tunnel_map_vrf,
  ntb_tunnel_map_vrf_lookup,
}

-- Every tunnel of the table is live, under one key.
abbrev pub AnyTunnel : TunnelMapKey → NtbTunnelInfo → Type 0
AnyTunnel k t = Unit {0}

==_ne : (a b : ℕ) → a ≢ b → (a == b) ≡ false
==_ne a b ne = ground arith

module _ {env : Env} where
  abbrev pub IsSound : World env → Type 0
  IsSound w = Owned env.tunnel AnyTunnel w.tunnel_tbl w.tunnels

  pub by_id :
      (w u : World env) (v : ℕ)
      → u.vrfs ≡ w.vrfs
      → v < ntb_nr_vrf
      → (w.vrfs v).valid ≡ true
      → ntb_vrf_dp_get_by_id u (suc v) ≡ ok (some v)
  unfolding ntb_vrf_dp_get_by_id
  by_id w u v same low valid = (get_by_id-suc u v (omega arith)).1 ∙ rw same (ground arith)

  -- A request changes the switch alone.
  request_keeps :
      (w : World env) (type : TunnelType) (id flag vrf_id : ℕ)
      → let u = lookup_request w type id flag vrf_id in
        (u.vrfs ≡ w.vrfs) × (u.tunnels ≡ w.tunnels) × (u.tunnel_tbl ≡ w.tunnel_tbl)
  unfolding lookup_request shc_hal_tunnel_map_vrf_entry_add shc_hal_tunnel_map_vrf_entry_del
      shc_hal_call
  request_keeps w type id flag vrf_id = elim (Bool-cases (flag == 0)) [
    | inl e ↦ rw (e, lookup_request) (refl, refl, refl)
    | inr e ↦ rw (e, lookup_request) (refl, refl, refl)
  ]

  -- The request of a lookup.
  pub lookup_request-eq :
      (w : World env) (type : TunnelType) (id flag vrf_id : ℕ)
      → lookup_request w type id flag vrf_id
        ≡ (shc_hal_call w
            (if flag == 0 then tunnel_add_request type id vrf_id else tunnel_del_request type id)).1
  unfolding lookup_request shc_hal_tunnel_map_vrf_entry_add shc_hal_tunnel_map_vrf_entry_del
  lookup_request-eq w type id flag vrf_id = elim (Bool-cases (flag == 0)) [
    | inl e ↦ rw (e, lookup_request) refl
    | inr e ↦ rw (e, lookup_request) refl
  ]

  -- A live tunnel leads to the VRF whose id it carries, whichever request the lookup makes.
  pub lookup_live :
      (w : World env) (type : TunnelType) (id flag p v : ℕ) (t : NtbTunnelInfo)
      → env.tunnel.lookup w.tunnel_tbl (map_key type id) ≡ some p
      → w.tunnels p ≡ some t
      → t.vrf_id ≡ suc v
      → v < ntb_nr_vrf
      → (w.vrfs v).valid ≡ true
      → ntb_tunnel_map_vrf_lookup type id flag w
        ≡ ok (some v, lookup_request w type id flag (suc v))
  unfolding ntb_tunnel_map_vrf_lookup
  lookup_live w type id flag p v t at live is low valid =
      let keeps = request_keeps w type id flag (suc v) in
      rw (at, live, ntb_tunnel_map_vrf_lookup)
        (rw is (
          rw (by_id w (lookup_request w type id flag (suc v)) v keeps.0 low valid)
            (ap (λ x. ok (some v, lookup_request w type id flag x)) is)))

  -- If a VRF in use that has its id is found by the name, the table has no entry for the tunnel,
  -- and there is memory and room, ntb_tunnel_map_vrf returns 0 and puts the new tunnel at the
  -- front of the VRF's list, and after that the lookup of the tunnel gives the VRF, for either
  -- flag, whatever the switch answers, in a build in which assertions do nothing: the code
  -- asserts that the request for the tunnel is refused.
  pub map_vrf_lookup-map_vrf :
      (w : World env) (name : List ℕ) (type : TunnelType) (id flag v p : ℕ) (tbl : env.tunnel.Tbl)
      → ntb_vrf_lookup w name ≡ some v
      → v < ntb_nr_vrf
      → (w.vrfs v).valid ≡ true
      → (w.vrfs v).dp.vrf_id ≡ suc v
      → env.tunnel.lookup w.tunnel_tbl (map_key type id) ≡ none
      → env.zmalloc w.tunnels ≡ some p
      → env.tunnel.add w.tunnel_tbl (map_key type id) p ≡ some tbl
      → (u : World env) × (ntb_tunnel_map_vrf w name type id ≡ ok (pos 0, u))
        × ((u.vrfs v).dp.tunnel_rmap ≡ p ∷ (w.vrfs v).dp.tunnel_rmap)
        × (ntb_tunnel_map_vrf_lookup type id flag u
            ≡ ok (some v, lookup_request u type id flag (suc v)))
  unfolding ntb_tunnel_map_vrf tunnel_new
  map_vrf_lookup-map_vrf w name type id flag v p tbl named low valid is free fresh added = (
    entered,
    rw (named, free, ntb_tunnel_map_vrf) new,
    ap (λ x. x.dp.tunnel_rmap) (update_self w.vrfs v _),
    lookup_live entered type id flag p v
        (record zero_ntb_tunnel_info { vrf_id = (w.vrfs v).dp.vrf_id })
        (env.tunnel.lookup-add_self w.tunnel_tbl tbl (map_key type id) p added)
        (update_self w.tunnels p _) is low (ap (λ x. x.valid) (update_self w.vrfs v _) ∙ valid),
  )
    where
      entered : World env
      entered =
          record (set_dp w v (record ((w.vrfs v).dp) {
            tunnel_rmap = p ∷ (w.vrfs v).dp.tunnel_rmap;
            tunnel_cnt = inc32 ((w.vrfs v).dp.tunnel_cnt);
          })) {
            tunnel_tbl = tbl;
            tunnels =
                update w.tunnels p
                  (some (record zero_ntb_tunnel_info { vrf_id = (w.vrfs v).dp.vrf_id }));
          }

      new : ◌≡◌ {A = Run (ℤ × World env)} (ok (tunnel_new w v type id)) (ok (pos 0, entered))
      new = rw (fresh, added, tunnel_new) refl

  inused_ne :
      {w : World env}
      → ◌≡◌ {A = Run (ℤ × World env)} (ok (pos 0, w)) (ok (ntb_err_code ntb_tunnel_inused, w))
      → ⊥
  inused_ne h = cc

  -- If the table leads from the tunnel to a live object, ntb_tunnel_map_vrf with the name of a
  -- VRF returns 0 and changes nothing exactly when the object carries the id of that VRF, and
  -- returns NTB_TUNNEL_INUSED and changes nothing exactly when it carries another.
  pub map_vrf_again :
      (w : World env) (name : List ℕ) (type : TunnelType) (id v p : ℕ) (t : NtbTunnelInfo)
      → ntb_vrf_lookup w name ≡ some v
      → env.tunnel.lookup w.tunnel_tbl (map_key type id) ≡ some p
      → w.tunnels p ≡ some t
      → ((ntb_tunnel_map_vrf w name type id ≡ ok (pos 0, w)) ↔ (t.vrf_id ≡ (w.vrfs v).dp.vrf_id))
        × ((ntb_tunnel_map_vrf w name type id ≡ ok (ntb_err_code ntb_tunnel_inused, w))
            ↔ (t.vrf_id ≢ (w.vrfs v).dp.vrf_id))
  unfolding ntb_tunnel_map_vrf
  map_vrf_again w name type id v p t named at live =
      elim (ℕ_discrete t.vrf_id (w.vrfs v).dp.vrf_id) [
        | yes e ↦
            rw (named, at, live, e, ==_refl (w.vrfs v).dp.vrf_id, ntb_tunnel_map_vrf)
              ((λ h. refl, λ h. refl), (λ h. absurd (inused_ne h), λ ne. absurd (ne refl)))
        | no ne ↦
            rw (named, at, live, ==_ne t.vrf_id (w.vrfs v).dp.vrf_id ne, ntb_tunnel_map_vrf)
              ((λ h. absurd (inused_ne (sym h)), λ h. absurd (ne h)), (λ h. ne, λ h. refl))
      ]
