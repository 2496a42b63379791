-- ===== src/Vrf/Remove.antt =====
-- agent/vrf.c: the deletion of a VRF, with its routes and tunnels.
pub mod Deleted
use tao_p4code.Base.{ℕ, ℤ, pos, false, none, some, List, [], update, pred_ℤ}
use tao_p4code.World.{Env, World, M, ok, pure, ◌>>=◌, ◌>>◌, get, put, set_dp}
use tao_p4code.Route.Lookup.{ntb_route_cleanup}
use tao_p4code.Tunnel.{ntb_tunnel_map_cleanup}
use tao_p4code.Vrf.Table.{ntb_vrf_lookup}

module _ {env : Env} where
  -- ntb_vrf_dp_dtor
  pub ntb_vrf_dp_dtor : ℕ → M env ℤ
  ntb_vrf_dp_dtor v = do
    _ ← ntb_route_cleanup v
    _ ← ntb_tunnel_map_cleanup v
    w ← get
    put (set_dp w v (record ((w.vrfs v).dp) { internal_ip = 0 }))
    pure (pos 0)

  -- What ntb_vrf_del writes after the destructor.
  abbrev pub vrf_clear : ℕ → World env → World env
  vrf_clear i w = record w {
    vrfs = update w.vrfs i (record (w.vrfs i) { name = []; valid = false });
    vrf_n = pred_ℤ w.vrf_n;
  }

  pub ntb_vrf_del : List ℕ → M env ℤ
  unfolding ntb_vrf_dp_dtor
  ntb_vrf_del name w = elim (ntb_vrf_lookup w name) [
    | none ↦ ok (pos 0, w)
    | some i ↦ (do _ ← ntb_vrf_dp_dtor i; u ← get; put (vrf_clear i u); pure (pos 0)) w
  ]
