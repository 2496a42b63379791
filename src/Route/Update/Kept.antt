-- ===== src/Route/Update/Kept.antt =====
-- agent/route.c: ntb_route_delete, the array of VRFs and the RIB.
use tao_p4code.Base.{ℕ, ℤ, pos, ◌≡◌, refl, Option, some, List, [], ◌∷◌}
use tao_p4code.Types.{RibKey}
use tao_p4code.World.{Env, World, Run, ok, fault, pure, ◌>>=◌, ◌>>◌}
use tao_p4code.World.Kept.{
  SameVrfs, SameVrfs-eq, SameVrfs-trans, KeepsVrfs, Partly-follow, Partly-mono, erase_rib,
  SameVrfs-erase,
}
use tao_p4code.Route.Nhop.{nhop_obj_delete}
use tao_p4code.Route.Nhop.Kept.{nhop_obj_delete-KeepsVrfs}
use tao_p4code.Route.Result.{fib_res_get, fib_res_id_free, fib_res_obj_delete, mpath_read}
use tao_p4code.Route.Prefix.{rt_prefix_obj_delete}
use tao_p4code.Route.Prefix.Kept.{fib_res_get-KeepsVrfs, rt_prefix_obj_delete-KeepsVrfs}
use tao_p4code.Route.Update.{run, nhops_delete, ntb_route_delete}

module _ {env : Env} where
  nhops_delete-KeepsVrfs :
      (v : ℕ) (ps : List (Option ℕ)) (w : World env) → KeepsVrfs w (nhops_delete v ps w)
  unfolding nhops_delete
  nhops_delete-KeepsVrfs v [] w = SameVrfs-eq w w refl refl refl refl
  nhops_delete-KeepsVrfs v (p ∷ ps) w =
      Partly-follow (λ _. SameVrfs w) (λ _. SameVrfs w) (nhop_obj_delete v p w)
        (λ _. nhops_delete v ps) (nhop_obj_delete-KeepsVrfs v p w)
        (λ _ u s.
          Partly-mono (λ _. SameVrfs u) (λ _. SameVrfs w) (nhops_delete v ps u)
            (nhops_delete-KeepsVrfs v ps u) (λ _ x t. SameVrfs-trans s t))

  id_free-SameVrfs : (id : ℤ) (w : World env) → SameVrfs w (fib_res_id_free id w)
  unfolding fib_res_id_free
  id_free-SameVrfs (pos n) w = SameVrfs-eq w _ refl refl refl refl
  id_free-SameVrfs (ℤ.negsuc n) w = SameVrfs-eq w w refl refl refl refl

  fib_res_obj_delete-KeepsVrfs : (id : ℤ) (w : World env) → KeepsVrfs w (fib_res_obj_delete id w)
  unfolding fib_res_obj_delete
  fib_res_obj_delete-KeepsVrfs id w =
      Partly-follow (λ _. SameVrfs w) (λ _. SameVrfs w) (fib_res_get id w)
        (λ r u. ok (pos 0, fib_res_id_free id u)) (fib_res_get-KeepsVrfs id w)
        (λ _ u s. SameVrfs-trans s (id_free-SameVrfs id u))

  run-KeepsVrfs : {A : Type 0} (r : Run A) (w : World env) → KeepsVrfs w (run r w)
  run-KeepsVrfs (ok a) w = SameVrfs-eq w w refl refl refl refl
  run-KeepsVrfs fault w = tt

  -- The deletion of a route behind its entries in the two tables.
  rest-KeepsVrfs :
      (v : ℕ) (id : ℤ) (paths : List (Option ℕ)) (w : World env)
      → KeepsVrfs w ((fib_res_obj_delete id >>= λ _. nhops_delete v paths >> pure (pos 0)) w)
  rest-KeepsVrfs v id paths w =
      Partly-follow (λ _. SameVrfs w) (λ _. SameVrfs w) (fib_res_obj_delete id w)
        (λ _. nhops_delete v paths >> pure (pos 0)) (fib_res_obj_delete-KeepsVrfs id w)
        (λ _ u s.
          Partly-follow (λ _. SameVrfs u) (λ _. SameVrfs w) (nhops_delete v paths u)
            (λ _. pure (pos 0)) (nhops_delete-KeepsVrfs v paths u) (λ _ x t. SameVrfs-trans s t))

  erase-KeepsVrfs :
      (v : ℕ) (pfx : RibKey) (id : ℤ) (paths : List (Option ℕ)) (w : World env)
      → KeepsVrfs (erase_rib pfx w) (
          (rt_prefix_obj_delete v pfx id >>= λ _.
          (fib_res_obj_delete id >>= λ _. nhops_delete v paths >> pure (pos 0)))
            w)
  erase-KeepsVrfs v pfx id paths w =
      Partly-follow (λ _. SameVrfs (erase_rib pfx w)) (λ _. SameVrfs (erase_rib pfx w))
        (rt_prefix_obj_delete v pfx id w)
        (λ _. fib_res_obj_delete id >>= λ _. nhops_delete v paths >> pure (pos 0))
        (rt_prefix_obj_delete-KeepsVrfs v pfx id w)
        (λ _ u s.
          Partly-mono (λ _. SameVrfs u) (λ _. SameVrfs (erase_rib pfx w)) _
            (rest-KeepsVrfs v id paths u) (λ _ x t. SameVrfs-trans s t))

  -- The RIB loses the entry of the prefix and keeps the others.
  pub ntb_route_delete-KeepsVrfs :
      (v : ℕ) (pfx : RibKey) (id : ℤ) (w : World env)
      → env.rib.lookup w.rib pfx ≡ some id
      → KeepsVrfs (erase_rib pfx w) (ntb_route_delete v pfx w)
  unfolding ntb_route_delete
  ntb_route_delete-KeepsVrfs v pfx id w e =
      rw (e, ntb_route_delete)
        (Partly-follow (λ _. SameVrfs w) (λ _. SameVrfs (erase_rib pfx w)) (fib_res_get id w) _
          (fib_res_get-KeepsVrfs id w)
          (λ r u s.
            Partly-follow (λ _. SameVrfs u) (λ _. SameVrfs (erase_rib pfx w))
              (run (mpath_read r.mpath_cnt r.mpath) u) _
              (run-KeepsVrfs (mpath_read r.mpath_cnt r.mpath) u)
              (λ paths x t.
                Partly-mono (λ _. SameVrfs (erase_rib pfx x)) (λ _. SameVrfs (erase_rib pfx w)) _
                  (erase-KeepsVrfs v pfx id paths x)
                  (λ _ y q. SameVrfs-trans (SameVrfs-erase pfx (SameVrfs-trans s t)) q))))
