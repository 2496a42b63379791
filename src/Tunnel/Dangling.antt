-- ===== src/Tunnel/Dangling.antt =====
-- agent/tunnel_map.c: what ntb_tunnel_unmap_vrf leaves behind in the table.
use tao_p4code.Base.{ℕ, pos, suc, ◌<◌, ◌≡◌, refl, ap, true, none, some, List, update_self}
use tao_p4code.Types.{TunnelType, NtbTunnelInfo, ntb_nr_vrf}
use tao_p4code.World.{Env, World, fault, Returns, Returns-mono, shc_hal_call}
use tao_p4code.Tunnel.{
  map_key, slist_remove, tunnel_del_request, ntb_tunnel_map_vrf_lookup, ntb_tunnel_unmap_vrf,
  shc_hal_tunnel_map_vrf_entry_del, tunnel_release,
}
use tao_p4code.Tunnel.Mapping.{by_id}

module _ {env : Env} where
  -- The table leads from the tunnel to memory that is freed.
  pub record IsDangling (w : World env) (type : TunnelType) (id : ℕ) : Type 0 where
    pub at : ℕ
    pub entry : env.tunnel.lookup w.tunnel_tbl (map_key type id) ≡ some at
    pub freed : w.tunnels at ≡ none

  dangling_faults :
      (w : World env) (type : TunnelType) (id flag : ℕ)
      → IsDangling w type id
      → (ntb_tunnel_map_vrf_lookup type id flag w ≡ fault)
        × (ntb_tunnel_unmap_vrf type id w ≡ fault)
  unfolding ntb_tunnel_map_vrf_lookup ntb_tunnel_unmap_vrf shc_hal_tunnel_map_vrf_entry_del
      shc_hal_call
  dangling_faults w type id flag d = (
    rw (d.entry, d.freed, ntb_tunnel_map_vrf_lookup) refl,
    rw (d.entry, d.freed, ntb_tunnel_unmap_vrf) refl,
  )

  -- If the table has an entry for the tunnel, whose object carries the id of a VRF in use and
  -- stands in that VRF's list behind live objects only, ntb_tunnel_unmap_vrf returns 0, takes
  -- the object out of the list, and leaves the table leading from the tunnel to the memory that
  -- it freed.
  pub unmap_vrf-IsDangling :
      (w : World env) (type : TunnelType) (id p v : ℕ) (t : NtbTunnelInfo) (rest : List ℕ)
      → env.tunnel.lookup w.tunnel_tbl (map_key type id) ≡ some p
      → w.tunnels p ≡ some t
      → t.vrf_id ≡ suc v
      → v < ntb_nr_vrf
      → (w.vrfs v).valid ≡ true
      → slist_remove w.tunnels p (w.vrfs v).dp.tunnel_rmap ≡ some rest
      → Returns
          (λ ret u. (ret ≡ pos 0) × ((u.vrfs v).dp.tunnel_rmap ≡ rest) × IsDangling u type id)
          (ntb_tunnel_unmap_vrf type id w)
  unfolding ntb_tunnel_unmap_vrf shc_hal_tunnel_map_vrf_entry_del shc_hal_call tunnel_release
  unmap_vrf-IsDangling w type id p v t rest entry live is low valid out =
      rw
        (
          entry,
          live,
          is,
          by_id w (shc_hal_call w (tunnel_del_request type id)).1 v refl low valid,
          ntb_tunnel_unmap_vrf,
          out,
          tunnel_release,
        )
        (
          refl,
          ap (λ x. x.dp.tunnel_rmap) (update_self w.vrfs v _),
          record { at = p; entry = entry; freed = update_self w.tunnels p none },
        )

  -- If the table has an entry for the tunnel, whose object carries the id of a VRF in use and
  -- stands in that VRF's list behind live objects only, ntb_tunnel_unmap_vrf returns 0, and the
  -- next call for the tunnel, ntb_tunnel_map_vrf_lookup with either flag or ntb_tunnel_unmap_vrf
  -- again, reads the memory that was freed.
  pub unmap_vrf-next :
      (w : World env) (type : TunnelType) (id flag p v : ℕ) (t : NtbTunnelInfo) (rest : List ℕ)
      → env.tunnel.lookup w.tunnel_tbl (map_key type id) ≡ some p
      → w.tunnels p ≡ some t
      → t.vrf_id ≡ suc v
      → v < ntb_nr_vrf
      → (w.vrfs v).valid ≡ true
      → slist_remove w.tunnels p (w.vrfs v).dp.tunnel_rmap ≡ some rest
      → Returns
          (λ ret u.
            (ret ≡ pos 0)
            × (ntb_tunnel_map_vrf_lookup type id flag u ≡ fault)
            × (ntb_tunnel_unmap_vrf type id u ≡ fault))
          (ntb_tunnel_unmap_vrf type id w)
  unmap_vrf-next w type id flag p v t rest entry live is low valid out =
      Returns-mono
        (λ ret u. (ret ≡ pos 0) × ((u.vrfs v).dp.tunnel_rmap ≡ rest) × IsDangling u type id) _
        (ntb_tunnel_unmap_vrf type id w)
        (unmap_vrf-IsDangling w type id p v t rest entry live is low valid out)
        (λ _ u (zero, _, d).
          let (lookup, unmap) = dangling_faults u type id flag d in (zero, lookup, unmap))
