-- ===== src/Route/Nhop/Fewer.antt =====
-- agent/route.c: the next hops before and after nhop_obj_delete.

use tao_p4code.Base.{
  ℕ, pos, zero, suc, ◌^◌, ◌<◌, ◌≡◌, refl, sym, ◌∙◌, ap, subst, true, false, none, some, arith, inl,
  inr, if◌then◌else◌, Bool-cases, update, update_self, ◌==◌, dec32, leb,
}
use tao_p4code.Types.{NhopEncapData, FibNhop}
use tao_p4code.World.{Env, World, ok, pure, ◌>>◌, Returns, Returns-follow, Returns-and}
use tao_p4code.Neigh.{ntb_neigh_del}
use tao_p4code.Neigh.Bound.{IsBounded, ntb_neigh_del-IsBounded}
use tao_p4code.Neigh.Frame.{ntb_neigh_del-SameRoutes}
use tao_p4code.Route.Nhop.{nhop_key, nhop_release, nhop_obj_delete}
use tao_p4code.Route.Nhop.Near.{Near, Near-write, Near-del, Near-neigh, Gone, Has}
use tao_p4code.Route.Nhop.Change.{Near-start}

module _ {env : Env} where
  module _ (v limit : ℕ) (key : NhopEncapData) (w : World env) (s : IsBounded limit w) where
    -- One use less: the object stays with the uses that are left, or it goes with its key.
    abbrev pub Fewer : ℕ → ℕ → World env → Type 0
    Fewer p (suc (suc count)) u = Has limit w key p (suc count) u
    Fewer p _ u = Gone limit w key p u

    nhop_release-Gone :
        (p : ℕ) (n : FibNhop) (u : World env)
        → nhop_key n ≡ key
        → Near limit w key p u
        → Returns (λ _. Gone limit w key p) (nhop_release v p n u)
    unfolding nhop_release
    nhop_release-Gone p n u own h = elim (Bool-cases (n.gateway == 0)) [
      | inl e ↦ rw e (freed after gone_near (near_gone))
      | inr e ↦ rw e (
          Returns-follow _ (λ _. Gone limit w key p) (ntb_neigh_del after v n.gateway) _
            (Returns-and _ _ (ntb_neigh_del after v n.gateway)
              (ntb_neigh_del-IsBounded limit after v n.gateway h.neighs)
              (ntb_neigh_del-SameRoutes after v n.gateway h.neighs.0))
            λ r u' t.
              freed u' (Near-neigh limit w key p after u' gone_near t.1 t.0)
                (ap (λ x. env.nhop.lookup x key) t.1.nhop_tbl ∙ near_gone))
    ]
      where
        after : World env
        after = record u { nhop_tbl = env.nhop.del u.nhop_tbl (nhop_key n) }

        gone_near : Near limit w key p after
        gone_near =
            subst (λ k. Near limit w key p (record u { nhop_tbl = env.nhop.del u.nhop_tbl k }))
              (sym own) (Near-del limit w key p u h)

        near_gone : env.nhop.lookup after.nhop_tbl key ≡ none
        near_gone =
            ap (λ k. env.nhop.lookup (env.nhop.del u.nhop_tbl k) key) own
            ∙ env.nhop.lookup-del_self u.nhop_tbl key

        freed :
            (x : World env)
            → Near limit w key p x
            → env.nhop.lookup x.nhop_tbl key ≡ none
            → Gone limit w key p (record x { nhops = update x.nhops p none })
        freed x near gone = record {
          near = Near-write limit w key p x none near;
          key_gone = gone;
          object_gone = update_self x.nhops p none;
        }

    -- nhop_obj_delete of an object in use, at the key of the object.
    pub nhop_obj_delete-Fewer :
        (p : ℕ) (n : FibNhop)
        → env.nhop.lookup w.nhop_tbl key ≡ some p
        → w.nhops p ≡ some n
        → nhop_key n ≡ key
        → 0 < n.ref_count
        → n.ref_count < 2 ^ 32
        → Returns (λ ret u. (ret ≡ pos 0) × Fewer p n.ref_count u) (nhop_obj_delete v (some p) w)
    unfolding nhop_obj_delete
    nhop_obj_delete-Fewer p n at live own used small =
        rw (live, nhop_obj_delete) (go n.ref_count refl)
      where
        fewer : FibNhop
        fewer = record n { ref_count = dec32 n.ref_count }

        stored : World env
        stored = record w { nhops = update w.nhops p (some fewer) }

        near : Near limit w key p stored
        near = Near-write limit w key p w (some fewer) (Near-start limit w key p s)

        go :
            (count : ℕ)
            → n.ref_count ≡ count
            → Returns
                (λ ret u. (ret ≡ pos 0) × Fewer p count u)
                (if leb 1 fewer.ref_count
                  then ok (pos 0, stored)
                  else (nhop_release v p fewer >> pure (pos 0)) stored)
        go zero e = absurd (omega arith)
        go (suc zero) e =
            let last : leb 1 (dec32 n.ref_count) ≡ false = ground arith in
            rw last (
              Returns-follow _ _ (nhop_release v p fewer stored) _
                (nhop_release-Gone p fewer stored own near) (λ _ u h. (refl, h)))
        go (suc (suc count)) e =
            let more : leb 1 (dec32 n.ref_count) ≡ true = ground arith in
            rw more (
              refl,
              record {
                near = near;
                key_at = at;
                object = (fewer, update_self w.nhops p _, omega arith);
              },
            )
