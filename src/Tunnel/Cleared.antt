-- ===== src/Tunnel/Cleared.antt =====
-- agent/tunnel_map.c: ntb_tunnel_map_cleanup, the routes and the table of VRFs.
use tao_p4code.Base.{
  ℕ, ℤ, pos, ◌≡◌, ◌≢◌, refl, ap, ◌∙◌, Option, none, some, List, [], ◌∷◌, arith, update, update_self,
  dec32,
}
use native.Mathlib.Decide.{ℕ_discrete}
use tao_p4code.Dpdk.Owned.{update_ne}
use tao_p4code.Types.{NtbTunnelInfo, RibKey}
use tao_p4code.World.{Env, World, VrfDp, Vrf, pure, set_dp, Returns, Returns-follow, Returns-mono}
use tao_p4code.Route.Rib.{no_extra, IsRib, view}
use tao_p4code.Tunnel.{write_tunnel, cleanup_list, ntb_tunnel_map_cleanup}

-- The list has `p` nowhere.
abbrev pub NotIn : ℕ → List ℕ → Type 0
NotIn p [] = Unit
NotIn p (q ∷ qs) = (q ≢ p) × NotIn p qs

-- Each tunnel of the list lives, and stands in it once.
abbrev pub IsLive : (ℕ → Option NtbTunnelInfo) → List ℕ → Type 0
IsLive tunnels [] = Unit
IsLive tunnels (p ∷ ps) =
    ((t : NtbTunnelInfo) × (tunnels p ≡ some t)) × NotIn p ps × IsLive tunnels ps

IsLive-update :
    (tunnels : ℕ → Option NtbTunnelInfo) (p : ℕ) (ps : List ℕ)
    → NotIn p ps
    → IsLive tunnels ps
    → IsLive (update tunnels p none) ps
IsLive-update tunnels p [] out live = tt
IsLive-update tunnels p (q ∷ qs) (ne, out) ((t, at), once, live) =
    ((t, update_ne tunnels p q none ne ∙ at), once, IsLive-update tunnels p qs out live)

module _ {env : Env} where
  -- The names, the marks of use, the ids and the number of the VRFs are the same.
  pub record SameTable (w u : World env) : Type 0 where
    pub name : (i : ℕ) → (u.vrfs i).name ≡ (w.vrfs i).name
    pub valid : (i : ℕ) → (u.vrfs i).valid ≡ (w.vrfs i).valid
    pub vrf_id : (i : ℕ) → (u.vrfs i).dp.vrf_id ≡ (w.vrfs i).dp.vrf_id
    pub vrf_n : u.vrf_n ≡ w.vrf_n

  pub SameTable-trans : (w x u : World env) → SameTable w x → SameTable x u → SameTable w u
  SameTable-trans w x u s t = record {
    name = λ i. t.name i ∙ s.name i;
    valid = λ i. t.valid i ∙ s.valid i;
    vrf_id = λ i. t.vrf_id i ∙ s.vrf_id i;
    vrf_n = t.vrf_n ∙ s.vrf_n;
  }

  -- A VRF whose state alone is written keeps its place in the table.
  pub set_dp-SameTable :
      (w : World env) (v : ℕ) (d : VrfDp env)
      → d.vrf_id ≡ (w.vrfs v).dp.vrf_id
      → SameTable w (set_dp w v d)
  set_dp-SameTable w v d same = record {
    name = λ i. ground arith;
    valid = λ i. ground arith;
    vrf_id = λ i. elim (ℕ_discrete i v) [
      | yes e ↦ rw (e, update_self w.vrfs v) same
      | no ne ↦ ap (λ x. x.dp.vrf_id) (update_ne w.vrfs v i _ ne)
    ];
    vrf_n = refl;
  }

  -- The routes do not depend on the state of the VRFs, nor on the tunnels.
  pub record SameRib (limit : ℕ) (w u : World env) : Type 0 where
    pub rib : IsRib limit no_extra u
    pub entries : u.rib ≡ w.rib
    pub views : (k : RibKey) → view u k ≡ view w k

  pub other-SameRib :
      (limit : ℕ) (w : World env) (vrfs : ℕ → Vrf env) (vrf_n : ℤ)
      (tunnels : ℕ → Option NtbTunnelInfo)
      → IsRib limit no_extra w
      → SameRib limit w (record w { vrfs = vrfs; vrf_n = vrf_n; tunnels = tunnels })
  unfolding view
  other-SameRib limit w vrfs vrf_n tunnels h = record {
    rib = record {
      both = h.both;
      most = h.most;
      held = h.held;
      counted = h.counted;
      routed = λ k z at.
          let r = h.routed k z at in
          record {
            id = r.id;
            at = r.at;
            is = r.is;
            low = r.low;
            taken = r.taken;
            path = r.path;
            plain = r.plain;
          };
      apart = h.apart;
    };
    entries = refl;
    views = λ k. refl;
  }

  abbrev pub Cleared : ℕ → World env → World env → Type 0
  Cleared limit w u = SameTable w u × SameRib limit w u

  cleanup_list-Cleared :
      (v limit : ℕ) (ps : List ℕ) (w : World env)
      → IsRib limit no_extra w
      → IsLive w.tunnels ps
      → Returns (λ _. Cleared limit w) (cleanup_list v ps w)
  unfolding cleanup_list
  cleanup_list-Cleared v limit [] w h live = (
    record { name = λ i. refl; valid = λ i. refl; vrf_id = λ i. refl; vrf_n = refl },
    record { rib = h; entries = refl; views = λ k. refl },
  )
  cleanup_list-Cleared v limit (p ∷ ps) w h ((t, at), once, live) =
      let d : VrfDp env = (w.vrfs v).dp in
      let d' : VrfDp env = record d { tunnel_rmap = ps; tunnel_cnt = dec32 d.tunnel_cnt } in
      let x = write_tunnel (set_dp w v d') p none in
      let s = other-SameRib limit w x.vrfs w.vrf_n x.tunnels h in
      let t1 = set_dp-SameTable w v d' refl in
      rw (at, cleanup_list)
        (Returns-mono (λ _. Cleared limit x) (λ _. Cleared limit w) (cleanup_list v ps x)
          (cleanup_list-Cleared v limit ps x s.rib (IsLive-update w.tunnels p ps once live))
          (λ _ u (table, r). (
            SameTable-trans w x u
                (record { name = t1.name; valid = t1.valid; vrf_id = t1.vrf_id; vrf_n = t1.vrf_n })
                table,
            record { rib = r.rib; entries = r.entries; views = λ k. r.views k ∙ s.views k },
          )))

  -- Where the tunnels of the VRF live: the call returns 0 and leaves the routes and the table of VRFs
  -- as they were.
  pub ntb_tunnel_map_cleanup-Cleared :
      (v limit : ℕ) (w : World env)
      → IsRib limit no_extra w
      → IsLive w.tunnels (w.vrfs v).dp.tunnel_rmap
      → Returns (λ ret u. (ret ≡ pos 0) × Cleared limit w u) (ntb_tunnel_map_cleanup v w)
  unfolding ntb_tunnel_map_cleanup
  ntb_tunnel_map_cleanup-Cleared v limit w h live =
      Returns-follow (λ _. Cleared limit w) _ (cleanup_list v (w.vrfs v).dp.tunnel_rmap w)
        (λ _. pure (pos 0)) (cleanup_list-Cleared v limit (w.vrfs v).dp.tunnel_rmap w h live)
        (λ _ u c. (refl, c))
