-- ===== src/Route/Nhop/Alloc.antt =====
-- The steps of nhop_obj_create that ask for the ids of the neighbour and of the next hop.

use tao_p4code.Base.{
  ℕ, ℤ, pos, negsuc, ◌≡◌, refl, Option, none, some, arith, inl, inr, if◌then◌else◌, Bool-cases,
  is_neg, update, update_self, ◌==◌,
}
use tao_p4code.Types.{NhopEncapData, FibNhop}
use tao_p4code.Dpdk.Owned.{Owned-write}
use tao_p4code.World.{Env, World, ok, Returns, Returns-follow, Returns-and}
use tao_p4code.Neigh.{ntb_neigh_add}
use tao_p4code.Neigh.Safety as NeighSafety
use tao_p4code.Neigh.Frame.{ntb_neigh_add-SameRoutes}
use tao_p4code.Route.Nhop.{nhop_key, rollback3, rollback4, nhop_alloc, nhop_neigh}
use tao_p4code.Route.Nhop.Safety.{NhopKey-discrete, BothSound, NeighRoom}
use tao_p4code.Route.Nhop.Draft.{
  Draft, Making, Made, rollback4-IsSound, rollback3-IsSound, Making-eq,
}

module _ {env : Env} where
  -- What holds after the object id has been asked for, with the result `ret`.
  abbrev pub Outcome : NhopEncapData → ℕ → ℤ → World env → Type 0
  Outcome key p (pos r) w = Made key p w
  Outcome key p (negsuc r) w = BothSound w

  alloc_ok :
      (v : ℕ) (key : NhopEncapData) (p oid : ℕ) (w : World env)
      → Making key p w
      → (n : FibNhop) → nhop_key n ≡ key
      → n.ref_count ≡ 0
      → Made key p (record w { nhops = update w.nhops p (some n) })
  alloc_ok v key p oid w m n own unused = record {
    nhops =
        Owned-write env.nhop (Draft key) NhopKey-discrete m.nhops key p n m.entered
          (own, λ ne. absurd (ne refl), omega arith);
    neighs = m.neighs;
    entered = m.entered;
    made = (n, update_self w.nhops p (some n), own, unused);
  }

  nhop_alloc-Outcome :
      (v : ℕ) (key : NhopEncapData) (p neigh_oid : ℕ) (w : World env)
      → Making key p w
      → Returns (Outcome key p) (nhop_alloc v key p neigh_oid w)
  unfolding nhop_alloc
  nhop_alloc-Outcome v key p neigh_oid w m = go ((env.hal.nhop_alloc_oid w.hw).0) refl
    where
      after : World env
      after = record w { hw = (env.hal.nhop_alloc_oid w.hw).2 }

      making : Making key p after
      making = record { nhops = m.nhops; neighs = m.neighs; entered = m.entered; fresh = m.fresh }

      go :
          (ret : ℤ)
          → (env.hal.nhop_alloc_oid w.hw).0 ≡ ret
          → Returns (Outcome key p) (nhop_alloc v key p neigh_oid w)
      go (negsuc r) e = rw e (
          Returns-follow _ (Outcome key p) (rollback3 v key p after) _
            (rollback3-IsSound v key p after making) (λ _ w' s. s))
      go (pos r) e = rw e (alloc_ok v key p 0 after making _ refl refl)

  pub nhop_neigh-Outcome :
      (v : ℕ) (key : NhopEncapData) (p : ℕ) (w : World env)
      → Making key p w
      → NeighRoom v key w
      → Returns (Outcome key p) (nhop_neigh v key p w)
  unfolding nhop_neigh
  nhop_neigh-Outcome v key p w m room = elim (Bool-cases (key.gateway == 0)) [
    | inl e ↦ rw e (nhop_alloc-Outcome v key p 0 w m)
    | inr e ↦ rw e (
        Returns-follow _ (Outcome key p) (ntb_neigh_add w v key.gateway) _
          (Returns-and _ _ (ntb_neigh_add w v key.gateway)
            (NeighSafety.ntb_neigh_add-IsSound w v key.gateway m.neighs room)
            (ntb_neigh_add-SameRoutes w v key.gateway m.neighs))
          λ (ret, oid) w' h. step ret oid w' (Making-eq key p w w' m h.1 h.0))
  ]
    where
      step :
          (ret : ℤ) (oid : Option ℕ) (w' : World env)
          → Making key p w'
          → Returns (Outcome key p) (
              if is_neg ret
              then ok (ret, rollback4 key p w')
              else nhop_alloc v key p (elim oid [ none ↦ 0 | some o ↦ o ]) w')
      step (negsuc r) oid w' m' = rollback4-IsSound key p w' m'
      step (pos r) oid w' m' = nhop_alloc-Outcome v key p _ w' m'
