-- ===== src/Neigh/Frame.antt =====
-- agent/neigh.c: ntb_neigh_add and ntb_neigh_del, and the tables of the routes and next hops.
use tao_p4code.Base.{ℕ, ◌≡◌, refl, inl, inr, Option-cases, Bool-cases, leb, dec32, arith}
use tao_p4code.World.{Env, World, Returns}
use tao_p4code.Neigh.{ntb_neigh_add, ntb_neigh_del, neigh_key, neigh_new, neigh_drop}
use tao_p4code.Types.{NeighKey}
use tao_p4code.Neigh.Safety.{IsSound}

module _ {env : Env} where
  -- The two states differ at most in the neighbours, their counters and the switch.
  pub record SameRoutes (w w' : World env) : Type 0 where
    pub rib : w'.rib ≡ w.rib
    pub fb : w'.fb ≡ w.fb
    pub fib_res : w'.fib_res ≡ w.fib_res
    pub nhop_tbl : w'.nhop_tbl ≡ w.nhop_tbl
    pub nhops : w'.nhops ≡ w.nhops
    pub fib : (v : ℕ) → (w'.vrfs v).dp.fib ≡ (w.vrfs v).dp.fib
    pub vrf_id : (v : ℕ) → (w'.vrfs v).dp.vrf_id ≡ (w.vrfs v).dp.vrf_id

  neigh_new-SameRoutes :
      (w : World env) (v : ℕ) (key : NeighKey) → SameRoutes w (neigh_new w v key).1
  unfolding neigh_new
  neigh_new-SameRoutes w v key = record {
    rib = ground arith;
    fb = ground arith;
    fib_res = ground arith;
    nhop_tbl = ground arith;
    nhops = ground arith;
    fib = λ u. ground arith;
    vrf_id = λ u. ground arith;
  }

  -- In a sound state ntb_neigh_add changes neither the RIB, the FIBs, the results and the next
  -- hops, nor the ids of the VRFs.
  pub ntb_neigh_add-SameRoutes :
      (w : World env) (v gw : ℕ) → IsSound w → Returns (λ _. SameRoutes w) (ntb_neigh_add w v gw)
  unfolding ntb_neigh_add
  ntb_neigh_add-SameRoutes w v gw s =
      elim (Option-cases (env.neigh.lookup w.neigh_tbl (neigh_key w v gw))) [
        | inl e ↦ rw (e, ntb_neigh_add) (neigh_new-SameRoutes w v (neigh_key w v gw))
        | inr (p, e) ↦
            let (n, live, used) = s.live (neigh_key w v gw) p e in
            rw (e, live, ntb_neigh_add)
              (record {
                rib = refl;
                fb = refl;
                fib_res = refl;
                nhop_tbl = refl;
                nhops = refl;
                fib = λ u. refl;
                vrf_id = λ u. refl;
              })
      ]

  del_last-SameRoutes :
      (w : World env) (v gw p : ℕ) → SameRoutes w (neigh_drop w v (neigh_key w v gw) p)
  unfolding neigh_drop
  del_last-SameRoutes w v gw p = record {
    rib = refl;
    fb = refl;
    fib_res = refl;
    nhop_tbl = refl;
    nhops = refl;
    fib = λ u. ground arith;
    vrf_id = λ u. ground arith;
  }

  -- In a sound state ntb_neigh_del changes neither the RIB, the FIBs, the results and the next
  -- hops, nor the ids of the VRFs.
  pub ntb_neigh_del-SameRoutes :
      (w : World env) (v gw : ℕ) → IsSound w → Returns (λ _. SameRoutes w) (ntb_neigh_del w v gw)
  unfolding ntb_neigh_del
  ntb_neigh_del-SameRoutes w v gw s =
      elim (Option-cases (env.neigh.lookup w.neigh_tbl (neigh_key w v gw))) [
        | inl e ↦
            rw (e, ntb_neigh_del)
              (record {
                rib = refl;
                fb = refl;
                fib_res = refl;
                nhop_tbl = refl;
                nhops = refl;
                fib = λ u. refl;
                vrf_id = λ u. refl;
              })
        | inr (p, e) ↦
            let (n, live, used) = s.live (neigh_key w v gw) p e in
            rw (e, live, ntb_neigh_del)
              (elim (Bool-cases (leb 1 (dec32 n.refcnt))) [
                | inl more ↦ rw more (record {
                  rib = refl;
                  fb = refl;
                  fib_res = refl;
                  nhop_tbl = refl;
                  nhops = refl;
                  fib = λ u. refl;
                  vrf_id = λ u. refl;
                })
                | inr last ↦ rw last (del_last-SameRoutes w v gw p)
              ])
      ]
