-- ===== src/Route/Nhop/Delete.antt =====
-- agent/route.c: nhop_obj_delete and the table of next hops.

use tao_p4code.Base.{
  ℕ, pos, ◌^◌, ◌<◌, ◌≡◌, refl, sym, ◌∙◌, ap, true, none, some, arith, inl, inr, Bool-cases, update,
  ◌==◌, leb, dec32,
}
use tao_p4code.Types.{NhopEncapData, FibNhop}
use tao_p4code.Dpdk.Owned.{Owned-write, Owned-mono, Owned-eq}
use tao_p4code.World.{Env, World, Returns, Returns-follow, Returns-and}
use tao_p4code.Neigh.{ntb_neigh_del}
use tao_p4code.Neigh.Safety as NeighSafety
use tao_p4code.Neigh.Frame.{ntb_neigh_del-SameRoutes}
use tao_p4code.Route.Nhop.{nhop_key, nhop_release, nhop_obj_delete}
use tao_p4code.Route.Nhop.Safety.{NhopKey-discrete, InUse, IsSound, BothSound}
use tao_p4code.Route.Nhop.Draft.{Draft, DraftSound, drop_draft}

module _ {env : Env} where
  -- The last use of a next hop has gone: it is taken out.
  nhop_release-IsSound :
      (v p : ℕ) (n : FibNhop) (w : World env)
      → DraftSound (nhop_key n) w
      → NeighSafety.IsSound w
      → env.nhop.lookup w.nhop_tbl (nhop_key n) ≡ some p
      → Returns (λ _. BothSound) (nhop_release v p n w)
  unfolding nhop_release
  nhop_release-IsSound v p n w s t at = elim (Bool-cases (n.gateway == 0)) [
    | inl e ↦ rw e (drop_draft (nhop_key n) p w s at, t)
    | inr e ↦ rw e (
        Returns-follow _ (λ _. BothSound) (ntb_neigh_del after v n.gateway) _
          (Returns-and _ _ (ntb_neigh_del after v n.gateway)
            (NeighSafety.ntb_neigh_del-IsSound after v n.gateway t)
            (ntb_neigh_del-SameRoutes after v n.gateway t))
          λ r w' h. (
            Owned-eq env.nhop InUse h.1.nhop_tbl (ap (λ g. update g p none) h.1.nhops)
                (drop_draft (nhop_key n) p w s at),
            h.0,
          ))
  ]
    where
      after : World env
      after = record w { nhop_tbl = env.nhop.del w.nhop_tbl (nhop_key n) }

  -- In a sound state nhop_obj_delete of a next hop that the table holds returns 0 on every
  -- branch and leaves the tables of next hops and neighbours sound.
  pub nhop_obj_delete-IsSound :
      (v : ℕ) (key : NhopEncapData) (p : ℕ) (w : World env)
      → IsSound w
      → NeighSafety.IsSound w
      → env.nhop.lookup w.nhop_tbl key ≡ some p
      → Returns (λ r w'. (r ≡ pos 0) × BothSound w') (nhop_obj_delete v (some p) w)
  unfolding nhop_obj_delete
  nhop_obj_delete-IsSound v key p w s t at =
      let (n, live, own) = s.live key p at in
      rw (live, nhop_obj_delete)
        (elim (Bool-cases (leb 1 (dec32 n.ref_count))) [
          | inl more ↦ rw more (
            refl,
            (
              Owned-write env.nhop InUse NhopKey-discrete s key p _ at
                  (own.0, (more_used n own more).0, (more_used n own more).1),
              t,
            ),
          )
          | inr last ↦ rw last (
              Returns-follow _ _ (nhop_release v p (fewer n) (store n)) _
                (nhop_release-IsSound v p (fewer n) (store n) (draft n own) t (own_at n own))
                λ _ w' h. (refl, h))
        ])
    where
      fewer : FibNhop → FibNhop
      fewer n = record n { ref_count = dec32 n.ref_count }

      store : FibNhop → World env
      store n = record w { nhops = update w.nhops p (some (fewer n)) }

      more_used :
          (n : FibNhop)
          → InUse key n
          → leb 1 (dec32 n.ref_count) ≡ true
          → (0 < dec32 n.ref_count) × (dec32 n.ref_count < 2 ^ 32)
      more_used n own more = ground arith

      own_at :
          (n : FibNhop) → InUse key n → env.nhop.lookup w.nhop_tbl (nhop_key (fewer n)) ≡ some p
      own_at n own = ap (env.nhop.lookup w.nhop_tbl) own.0 ∙ at

      draft : (n : FibNhop) → InUse key n → DraftSound (nhop_key (fewer n)) (store n)
      draft n own =
          Owned-write env.nhop (Draft (nhop_key (fewer n))) NhopKey-discrete
            (Owned-mono env.nhop InUse (Draft (nhop_key (fewer n))) s
              (λ k q a g h i. (i.0, λ _. i.1, i.2)))
            key p (fewer n) at (own.0, λ ne. absurd (ne (sym own.0)), omega arith)
