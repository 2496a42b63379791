-- ===== src/Route/Update.antt =====
-- agent/route.c: a next hop is added to a route, or taken from it, and a route is deleted.
pub mod Fresh
pub mod Kept
use tao_p4code.Base.{
  ℕ, ℤ, pos, negsuc, is_neg, Bool, true, false, Option, none, some, List, [], ◌∷◌, ◌++◌, ◌==◌,
  if◌then◌else◌,
}
use tao_p4code.Types.{RibKey, NhopEncapData, RibType, rib_type_eq, FibRes}
use tao_p4code.Errno.{
  ntb_err_code, ntb_ipv4_routetype_no_same, ntb_route_nexthop_ecmp_nospace,
  ntb_route_prefix_not_found,
}
use tao_p4code.World.{Env, Run, ok, fault, M, pure, ◌>>=◌, ◌>>◌, get}
use tao_p4code.Route.Nhop.{load_nhop, fib_nhop_equal, nhop_obj_create, nhop_obj_delete}
use tao_p4code.Route.Result.{
  fib_res_get, fib_res_rtype_get, fib_res_mpath_nospace, mpath_read, fib_res_obj_create,
  fib_res_obj_delete,
}
use tao_p4code.Route.Prefix.{rt_prefix_obj_update, rt_prefix_obj_delete}

-- The comparison of two pointers.
abbrev pub ptr_eq : Option ℕ → Option ℕ → Bool
ptr_eq none none = true
ptr_eq (some p) (some q) = p == q
ptr_eq _ _ = false

-- The pointers other than `p`, and whether `p` is among them.
abbrev pub drop_nhop : Option ℕ → List (Option ℕ) → List (Option ℕ)
drop_nhop p [] = []
drop_nhop p (q ∷ qs) = if ptr_eq q p then drop_nhop p qs else q ∷ drop_nhop p qs

abbrev pub has_nhop : Option ℕ → List (Option ℕ) → Bool
has_nhop p [] = false
has_nhop p (q ∷ qs) = if ptr_eq q p then true else has_nhop p qs

module _ {env : Env} where
  -- A computation that has no state of its own.
  abbrev pub run : {A : Type 0} → Run A → M env A
  run fault w = fault
  run (ok a) w = ok (a, w)

  -- The loop of ntb_route_nhop_insert over the paths of the old result: is one equal to the new one?
  unfoldable pub any_equal : List (Option ℕ) → NhopEncapData → M env Bool
  any_equal [] key = pure false
  any_equal (p ∷ ps) key = do
    n ← load_nhop p
    if fib_nhop_equal n key then pure true else any_equal ps key

  -- What ntb_route_nhop_insert does after its checks. `old` is the result that the prefix has, at
  -- the id `id`; both are absent for a new prefix, where `id` is -1.
  unfoldable pub route_insert :
      ℕ → RibKey → NhopEncapData → RibType → ℤ → Option FibRes → List (Option ℕ) → M env ℤ
  route_insert v pfx key rib_type id old paths = do
    (ret, nhop_new) ← nhop_obj_create v key
    if is_neg ret then pure ret else do
      id_new ← fib_res_obj_create (paths ++ nhop_new ∷ []) old rib_type
      if is_neg id_new then (nhop_obj_delete v nhop_new >>= λ _. pure id_new) else do
        ret ← rt_prefix_obj_update v pfx id id_new
        if is_neg ret
            then (fib_res_obj_delete id_new >>= λ _. nhop_obj_delete v nhop_new >>= λ _. pure ret)
            else if is_neg id
            then pure ret
            else fib_res_obj_delete id

  -- The checks of ntb_route_nhop_insert at a prefix that has the result `id`.
  unfoldable pub insert_at : ℕ → RibKey → NhopEncapData → RibType → ℤ → M env ℤ
  unfolding any_equal route_insert
  insert_at v pfx key rib_type id = do
    r ← fib_res_get id
    if rib_type_eq (fib_res_rtype_get r) rib_type
        then (if fib_res_mpath_nospace r
            then pure (ntb_err_code ntb_route_nexthop_ecmp_nospace)
            else do
              paths ← run (mpath_read r.mpath_cnt r.mpath)
              found ← any_equal paths key
              if found then pure (pos 0) else route_insert v pfx key rib_type id (some r) paths)
        else pure (ntb_err_code ntb_ipv4_routetype_no_same)

  unfoldable pub ntb_route_nhop_insert : ℕ → RibKey → NhopEncapData → RibType → M env ℤ
  unfolding insert_at route_insert
  ntb_route_nhop_insert v pfx key rib_type w = elim (env.rib.lookup w.rib pfx) [
    | some id ↦ insert_at v pfx key rib_type id w
    | none ↦ route_insert v pfx key rib_type (negsuc 0) none [] w
  ]

  -- The whole route goes, with its last next hop.
  unfoldable pub delete_last : ℕ → RibKey → ℤ → Option ℕ → M env ℤ
  delete_last v pfx id nhop = do
    _ ← rt_prefix_obj_delete v pfx id
    _ ← fib_res_obj_delete id
    nhop_obj_delete v nhop

  -- The route goes on with the next hops `rest`: the new result is entered before the old one goes.
  unfoldable pub delete_one :
      ℕ → RibKey → RibType → ℤ → FibRes → Option ℕ → List (Option ℕ) → M env ℤ
  delete_one v pfx rib_type id r nhop rest = do
    id_new ← fib_res_obj_create rest (some r) rib_type
    if is_neg id_new then pure id_new else do
      ret ← rt_prefix_obj_update v pfx id id_new
      if is_neg ret
          then (fib_res_obj_delete id_new >>= λ _. pure ret)
          else (fib_res_obj_delete id >>= λ _. nhop_obj_delete v nhop)

  -- The checks of ntb_route_nhop_delete at a prefix that has the result `id`.
  unfoldable pub delete_at : ℕ → RibKey → NhopEncapData → RibType → ℤ → M env ℤ
  unfolding delete_last delete_one
  delete_at v pfx key rib_type id = do
    r ← fib_res_get id
    w ← get
    if rib_type_eq (fib_res_rtype_get r) rib_type
        then (elim (env.nhop.lookup w.nhop_tbl key) [
          | none ↦ pure (pos 0)
          | some p ↦ do
            paths ← run (mpath_read r.mpath_cnt r.mpath)
            if has_nhop (some p) paths
                then (if r.mpath_cnt == 1
                    then delete_last v pfx id (some p)
                    else delete_one v pfx rib_type id r (some p) (drop_nhop (some p) paths))
                else pure (pos 0)
        ])
        else pure (ntb_err_code ntb_ipv4_routetype_no_same)

  unfoldable pub ntb_route_nhop_delete : ℕ → RibKey → NhopEncapData → RibType → M env ℤ
  unfolding delete_at
  ntb_route_nhop_delete v pfx key rib_type w = elim (env.rib.lookup w.rib pfx) [
    | none ↦ ok (pos 0, w)
    | some id ↦ delete_at v pfx key rib_type id w
  ]

  -- The loop of ntb_route_delete that gives back the next hops.
  unfoldable pub nhops_delete : ℕ → List (Option ℕ) → M env (Unit {0})
  nhops_delete v [] = pure tt
  nhops_delete v (p ∷ ps) = nhop_obj_delete v p >>= λ _. nhops_delete v ps

  unfoldable pub ntb_route_delete : ℕ → RibKey → M env ℤ
  unfolding nhops_delete
  ntb_route_delete v pfx w = elim (env.rib.lookup w.rib pfx) [
    | none ↦ ok (ntb_err_code ntb_route_prefix_not_found, w)
    | some id ↦
        (do
          r ← fib_res_get id
          paths ← run (mpath_read r.mpath_cnt r.mpath)
          _ ← rt_prefix_obj_delete v pfx id
          _ ← fib_res_obj_delete id
          nhops_delete v paths
          pure (pos 0))
          w
  ]
