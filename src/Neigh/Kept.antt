-- ===== src/Neigh/Kept.antt =====
-- agent/neigh.c: ntb_neigh_del and the array of VRFs.
use tao_p4code.Base.{ℕ, refl, inl, inr, Option-cases, Bool-cases, leb, dec32, arith}
use tao_p4code.Types.{NeighKey}
use tao_p4code.World.{Env, World}
use tao_p4code.World.Kept.{SameVrfs, SameVrfs-eq, KeepsVrfs}
use tao_p4code.Neigh.{ntb_neigh_del, neigh_key, neigh_drop}

module _ {env : Env} where
  neigh_drop-SameVrfs :
      (w : World env) (v : ℕ) (key : NeighKey) (p : ℕ) → SameVrfs w (neigh_drop w v key p)
  unfolding neigh_drop
  neigh_drop-SameVrfs w v key p = record {
    name = λ i. ground arith;
    valid = λ i. ground arith;
    vrf_id = λ i. ground arith;
    tunnel_rmap = λ i. ground arith;
    internal_ip = λ i. ground arith;
    route_mac = λ i. ground arith;
    vrf_n = refl;
    tunnels = refl;
    rib = refl;
  }

  pub ntb_neigh_del-KeepsVrfs : (w : World env) (v gw : ℕ) → KeepsVrfs w (ntb_neigh_del w v gw)
  unfolding ntb_neigh_del
  ntb_neigh_del-KeepsVrfs w v gw =
      elim (Option-cases (env.neigh.lookup w.neigh_tbl (neigh_key w v gw))) [
        | inl e ↦ rw (e, ntb_neigh_del) (SameVrfs-eq w _ refl refl refl refl)
        | inr (p, e) ↦ elim (Option-cases (w.neighs p)) [
          | inl gone ↦ rw (e, gone, ntb_neigh_del) tt
          | inr (n, live) ↦ elim (Bool-cases (leb 1 (dec32 n.refcnt))) [
            | inl more ↦ rw (e, live, more, ntb_neigh_del) (SameVrfs-eq w _ refl refl refl refl)
            | inr last ↦
                rw (e, live, last, ntb_neigh_del) (neigh_drop-SameVrfs w v (neigh_key w v gw) p)
          ]
        ]
      ]
