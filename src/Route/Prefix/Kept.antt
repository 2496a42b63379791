-- ===== src/Route/Prefix/Kept.antt =====
-- agent/route.c: rt_prefix_obj_delete, the array of VRFs and the RIB.
use tao_p4code.Base.{
  ℕ, ℤ, pos, negsuc, refl, inl, inr, Option, none, some, Option-cases, Bool-cases, arith, ltb, ◌==◌,
  get_elem?,
}
use tao_p4code.Types.{RibKey, FibRes}
use tao_p4code.World.{Env, World, ok, pure}
use tao_p4code.World.Kept.{
  SameVrfs, SameVrfs-eq, SameVrfs-trans, SameVrfs-erase, erase_rib, KeepsVrfs, Partly-follow,
}
use tao_p4code.Route.Nhop.{load_nhop}
use tao_p4code.Route.Result.{fib_res_get}
use tao_p4code.Route.Prefix.{
  mpath_load, host_type, rt_prefix_type_get, prefix_erase, rt_prefix_obj_delete,
}

module _ {env : Env} where
  pub fib_res_get-KeepsVrfs : (id : ℤ) (w : World env) → KeepsVrfs w (fib_res_get id w)
  fib_res_get-KeepsVrfs (negsuc n) w = tt
  fib_res_get-KeepsVrfs (pos n) w = elim (Bool-cases (ltb n env.fb.len)) [
    | inl e ↦ rw e (SameVrfs-eq w w refl refl refl refl)
    | inr e ↦ rw e tt
  ]

  load_nhop-KeepsVrfs : (p : Option ℕ) (w : World env) → KeepsVrfs w (load_nhop p w)
  load_nhop-KeepsVrfs none w = tt
  load_nhop-KeepsVrfs (some p) w = elim (Option-cases (w.nhops p)) [
    | inl e ↦ rw e tt
    | inr (n, e) ↦ rw e (SameVrfs-eq w w refl refl refl refl)
  ]

  mpath_load-KeepsVrfs : (r : FibRes) (i : ℕ) (w : World env) → KeepsVrfs w (mpath_load r i w)
  unfolding mpath_load
  mpath_load-KeepsVrfs r i w = elim (Option-cases (get_elem? r.mpath i)) [
    | inl e ↦ rw (e, mpath_load) tt
    | inr (p, e) ↦ rw (e, mpath_load) (load_nhop-KeepsVrfs p w)
  ]

  rt_prefix_type_get-KeepsVrfs :
      (pfx : RibKey) (id : ℤ) (w : World env) → KeepsVrfs w (rt_prefix_type_get pfx id w)
  unfolding rt_prefix_type_get
  rt_prefix_type_get-KeepsVrfs pfx id w =
      Partly-follow (λ _. SameVrfs w) (λ _. SameVrfs w) (fib_res_get id w) _
        (fib_res_get-KeepsVrfs id w)
        λ r u s. elim (Bool-cases (r.mpath_cnt == 1)) [
          | inl e ↦ rw e (
              Partly-follow (λ _. SameVrfs u) (λ _. SameVrfs w) (mpath_load r 0 u)
                (λ n. pure (host_type pfx n)) (mpath_load-KeepsVrfs r 0 u)
                (λ _ x t. SameVrfs-trans s t))
          | inr e ↦ rw e s
        ]

  prefix_erase-SameVrfs :
      (v : ℕ) (pfx : RibKey) (w : World env) → SameVrfs (erase_rib pfx w) (prefix_erase v pfx w)
  prefix_erase-SameVrfs v pfx w = record {
    name = λ i. ground arith;
    valid = λ i. ground arith;
    vrf_id = λ i. ground arith;
    tunnel_rmap = λ i. ground arith;
    internal_ip = λ i. ground arith;
    route_mac = λ i. ground arith;
    vrf_n = refl;
    tunnels = refl;
    rib = refl;
  }

  pub rt_prefix_obj_delete-KeepsVrfs :
      (v : ℕ) (pfx : RibKey) (id : ℤ) (w : World env)
      → KeepsVrfs (erase_rib pfx w) (rt_prefix_obj_delete v pfx id w)
  unfolding rt_prefix_obj_delete
  rt_prefix_obj_delete-KeepsVrfs v pfx id w =
      Partly-follow (λ _. SameVrfs w) (λ _. SameVrfs (erase_rib pfx w))
        (rt_prefix_type_get pfx id w) (λ _ u. ok (env.rib.del_ret u.rib pfx, prefix_erase v pfx u))
        (rt_prefix_type_get-KeepsVrfs pfx id w)
        (λ _ u s. SameVrfs-trans (SameVrfs-erase pfx s) (prefix_erase-SameVrfs v pfx u))
