-- ===== src/Route/Nhop/Kept.antt =====
-- agent/route.c: nhop_obj_delete and the array of VRFs.
use tao_p4code.Base.{
  ℕ, pos, refl, inl, inr, Option, none, some, Option-cases, Bool-cases, leb, dec32, ◌==◌,
}
use tao_p4code.Types.{FibNhop}
use tao_p4code.World.{Env, World, ok, pure}
use tao_p4code.World.Kept.{
  SameVrfs, SameVrfs-eq, SameVrfs-trans, KeepsVrfs, Partly-follow, Partly-mono,
}
use tao_p4code.Neigh.{ntb_neigh_del}
use tao_p4code.Neigh.Kept.{ntb_neigh_del-KeepsVrfs}
use tao_p4code.Route.Nhop.{nhop_release, nhop_obj_delete, nhop_key, store_nhop}

module _ {env : Env} where
  nhop_release-KeepsVrfs :
      (v p : ℕ) (n : FibNhop) (w : World env) → KeepsVrfs w (nhop_release v p n w)
  unfolding nhop_release
  nhop_release-KeepsVrfs v p n w =
      let w' : World env = record w { nhop_tbl = env.nhop.del w.nhop_tbl (nhop_key n) } in
      elim (Bool-cases (n.gateway == 0)) [
        | inl e ↦ rw (e, nhop_release) (SameVrfs-eq w _ refl refl refl refl)
        | inr e ↦
            rw (e, nhop_release)
              (Partly-follow (λ _. SameVrfs w) (λ _. SameVrfs w) (ntb_neigh_del w' v n.gateway)
                (λ r u. ok (tt, store_nhop p none u))
                (Partly-mono (λ _. SameVrfs w') (λ _. SameVrfs w) (ntb_neigh_del w' v n.gateway)
                  (ntb_neigh_del-KeepsVrfs w' v n.gateway)
                  (λ _ u s. SameVrfs-trans (SameVrfs-eq w w' refl refl refl refl) s))
                (λ _ u s. SameVrfs-trans s (SameVrfs-eq u _ refl refl refl refl)))
      ]

  pub nhop_obj_delete-KeepsVrfs :
      (v : ℕ) (p : Option ℕ) (w : World env) → KeepsVrfs w (nhop_obj_delete v p w)
  unfolding nhop_obj_delete
  nhop_obj_delete-KeepsVrfs v none w = tt
  nhop_obj_delete-KeepsVrfs v (some p) w = elim (Option-cases (w.nhops p)) [
    | inl gone ↦ rw (gone, nhop_obj_delete) tt
    | inr (n, live) ↦
        let n' : FibNhop = record n { ref_count = dec32 n.ref_count } in
        let w' = store_nhop p (some n') w in
        elim (Bool-cases (leb 1 n'.ref_count)) [
          | inl more ↦ rw (live, more, nhop_obj_delete) (SameVrfs-eq w _ refl refl refl refl)
          | inr last ↦
              rw (live, last, nhop_obj_delete)
                (Partly-follow (λ _. SameVrfs w') (λ _. SameVrfs w) (nhop_release v p n' w')
                  (λ _. pure (pos 0)) (nhop_release-KeepsVrfs v p n' w')
                  (λ _ u s. SameVrfs-trans (SameVrfs-eq w w' refl refl refl refl) s))
        ]
  ]
