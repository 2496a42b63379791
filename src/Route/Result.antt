-- ===== src/Route/Result.antt =====
-- agent/route.c: the results of routes, elements of the shared array `fib_res_array`.
pub mod Single
use tao_p4code.Base.{
  ℕ, ℤ, zero, suc, ◌+◌, pos, negsuc, Option, none, some, List, [], ◌∷◌, ◌==◌, ltb, if◌then◌else◌,
  update, Bool, inc32, set, length, replicate, leb,
}
use tao_p4code.Types.{
  RibType, rt_default, rt_mroute, rt_max, FibRes, has_flag, frf_mroute, fib_res_set_flags,
  fib_res_unset_flags, fib_res_clone_flags, route_max_ecmp, mroute_max_ecmp,
}
use tao_p4code.Errno.{ntb_err_code, ntb_route_result_nospace, enospc}
use tao_p4code.World.{Env, World, Run, ok, fault, M, pure, ◌>>=◌, ◌>>◌, get, put}
use tao_p4code.Route.Nhop.{load_nhop}

abbrev pub fib_res_rtype_get : FibRes → RibType
fib_res_rtype_get r = if has_flag r frf_mroute then rt_mroute else rt_default

abbrev pub fib_res_mpath_nospace : FibRes → Bool
fib_res_mpath_nospace r = leb r.mpath_max r.mpath_cnt

-- `fib_res_md_set` with no old result: its only caller passes NULL.
abbrev pub fib_res_md_set : FibRes → RibType → FibRes
fib_res_md_set r rt_default =
    fib_res_unset_flags (record r { mpath_max = route_max_ecmp }) frf_mroute
fib_res_md_set r rt_mroute = fib_res_set_flags (record r { mpath_max = mroute_max_ecmp }) frf_mroute
fib_res_md_set r rt_max = r

-- `f_res_oid` is not written.
abbrev pub fib_res_reset : FibRes → FibRes
fib_res_reset r = record r {
  fr_flags = 0;
  mpath_cnt = 0;
  mpath_max = route_max_ecmp;
  mpath = replicate route_max_ecmp none;
}

-- The pointers `mpath[0 .. n)`; a fault where the array is shorter.
abbrev pub mpath_read : ℕ → List (Option ℕ) → Run (List (Option ℕ))
mpath_read zero slots = ok []
mpath_read (suc n) [] = fault
mpath_read (suc n) (x ∷ xs) = elim (mpath_read n xs) [ fault ↦ fault | ok ys ↦ ok (x ∷ ys) ]

-- `rib_res_nhop_ctor`: a write beyond `mpath[ROUTE_MAX_ECMP]` is a fault.
abbrev pub rib_res_nhop_ctor : FibRes → ℕ → Option ℕ → Run FibRes
rib_res_nhop_ctor r nhsel nhop =
    if ltb nhsel (length r.mpath)
    then ok (record r { mpath = set r.mpath nhsel nhop; mpath_cnt = inc32 r.mpath_cnt })
    else fault

-- The loop that copies the next hops, from index `i` on.
abbrev pub mpath_fill : FibRes → ℕ → List (Option ℕ) → Run FibRes
mpath_fill r i [] = ok r
mpath_fill r i (p ∷ ps) = elim (rib_res_nhop_ctor r i p) [
  | fault ↦ fault
  | ok r' ↦ mpath_fill r' (i + 1) ps
]

-- The flags of the old result are inherited.
abbrev pub inherit_flags : Option FibRes → FibRes → FibRes
inherit_flags none r = r
inherit_flags (some old) r = fib_res_clone_flags r old

-- The pointer `fib_nhops[0]`.
abbrev pub first_nhop : List (Option ℕ) → Option ℕ
first_nhop [] = none
first_nhop (p ∷ ps) = p

module _ {env : Env} where
  -- `rte_fbarray_get` gives NULL beyond the array, which the callers follow.
  abbrev pub fib_res_get : ℤ → M env FibRes
  fib_res_get (negsuc n) w = fault
  fib_res_get (pos n) w = if ltb n env.fb.len then ok (w.fib_res n, w) else fault

  abbrev pub write_res : ℕ → FibRes → World env → World env
  write_res id r w = record w { fib_res = update w.fib_res id r }

  -- The id of a fresh result, reset.
  pub fib_res_id_alloc : World env → ℤ × World env
  fib_res_id_alloc w = elim (env.fb.find_next_free w.fb) [
    | none ↦ (enospc, w)
    | some id ↦ (
      pos id,
      write_res id (fib_res_reset (w.fib_res id)) (record w { fb = env.fb.set_used w.fb id }),
    )
  ]

  -- `f_res->f_res_oid`: the next hop's id for a single path, the number of paths for multicast.
  pub fib_res_oid_set : FibRes → List (Option ℕ) → RibType → M env FibRes
  fib_res_oid_set r nhops rt_default =
      if length nhops == 1
      then (load_nhop (first_nhop nhops) >>= λ n. pure (record r { f_res_oid = n.nh_oid }))
      else pure r
  fib_res_oid_set r nhops rt_mroute = pure (record r { f_res_oid = length nhops })
  fib_res_oid_set r nhops rt_max = pure (record r { f_res_oid = length nhops })

  -- The result with the given next hops, at the id `id`.
  fib_res_build : ℕ → List (Option ℕ) → Option FibRes → RibType → M env ℤ
  unfolding fib_res_oid_set
  fib_res_build id nhops old rib_type w = elim (mpath_fill (w.fib_res id) 0 nhops) [
    | fault ↦ fault
    | ok r ↦ elim (fib_res_oid_set r nhops rib_type w) [
      | fault ↦ fault
      | ok (r', w') ↦ ok (pos id, write_res id (fib_res_md_set (inherit_flags old r') rib_type) w')
    ]
  ]

  -- The id of the new result, or NTB_ROUTE_RESULT_NOSPACE.
  pub fib_res_obj_create : List (Option ℕ) → Option FibRes → RibType → M env ℤ
  unfolding fib_res_id_alloc fib_res_build
  fib_res_obj_create nhops old rib_type w = elim (fib_res_id_alloc w).0 [
    | negsuc n ↦ ok (ntb_err_code ntb_route_result_nospace, w)
    | pos id ↦ fib_res_build id nhops old rib_type (fib_res_id_alloc w).1
  ]

  -- `fib_res_id_free` of an id that `fib_res_get` accepted.
  unfoldable pub fib_res_id_free : ℤ → World env → World env
  fib_res_id_free (negsuc n) w = w
  fib_res_id_free (pos id) w = record w { fb = env.fb.set_free w.fb id }

  -- The result is 0 on either of its branches, which differ in calls that are commented out.
  unfoldable pub fib_res_obj_delete : ℤ → M env ℤ
  unfolding fib_res_id_free
  fib_res_obj_delete id = do r ← fib_res_get id; w ← get; put (fib_res_id_free id w); pure (pos 0)
