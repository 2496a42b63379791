-- ===== src/Route/Prefix.antt =====
-- agent/route.c: the entries of a prefix in the RIB and in the FIB of its VRF.
pub mod Write
pub mod Kept
use tao_p4code.Base.{
  ℕ, ℤ, pos, negsuc, Bool, false, ◌&&◌, Option, none, some, ◌==◌, leb, is_neg, if◌then◌else◌, suc_ℤ,
  pred_ℤ, get_elem?,
}
use tao_p4code.Types.{
  RibKey, PrefixType, rt_prefix_invalid, rt_prefix_lpm, rt_prefix_host, FibRes, FibNhop, encap_num,
  tgre,
}
use tao_p4code.Errno.{ntb_err_code, ntb_route_prefix_nospace}
use tao_p4code.World.{Env, World, Run, ok, fault, M, VrfDp, pure, ◌>>=◌, ◌>>◌, get, put, set_dp}
use tao_p4code.Route.Nhop.{load_nhop}
use tao_p4code.Route.Result.{fib_res_get}

-- The value of `mpath[i]`, read within the array.
abbrev pub mpath_at : FibRes → ℕ → Run (Option ℕ)
mpath_at r i = elim (get_elem? r.mpath i) [ none ↦ fault | some p ↦ ok p ]

-- `f_res_id > 0`.
abbrev pub is_pos : ℤ → Bool
is_pos (negsuc n) = false
is_pos (pos n) = leb 1 n

-- The type of a route with one next hop.
abbrev pub host_type : RibKey → FibNhop → PrefixType
host_type pfx n =
    if encap_num n.tunnel_info.type == encap_num tgre && pfx.prefixlen == 32
    then rt_prefix_host
    else rt_prefix_lpm

module _ {env : Env} where
  -- `*mpath[i]`.
  unfoldable pub mpath_load : FibRes → ℕ → M env FibNhop
  mpath_load r i w = elim (mpath_at r i) [ fault ↦ fault | ok p ↦ load_nhop p w ]

  pub rt_prefix_type_get : RibKey → ℤ → M env PrefixType
  unfolding mpath_load
  rt_prefix_type_get pfx id = do
    r ← fib_res_get id
    if r.mpath_cnt == 1
        then (mpath_load r 0 >>= λ n. pure (host_type pfx n))
        else pure rt_prefix_lpm

  abbrev pub dp : World env → ℕ → VrfDp env
  dp w v = (w.vrfs v).dp

  -- The label rollback2 of rt_prefix_obj_update. The result of the second write is not read.
  rib_rollback : RibKey → ℤ → World env → World env
  rib_rollback pfx (negsuc n) w = record w { rib = env.rib.del w.rib pfx }
  rib_rollback pfx (pos id) w = elim (env.rib.add w.rib pfx (pos id)) [
    | none ↦ w
    | some rib ↦ record w { rib = rib }
  ]

  -- The two tables: the RIB is written first, and restored where the FIB has no space.
  prefix_write : ℕ → RibKey → ℤ → ℤ → World env → ℤ × World env
  unfolding rib_rollback
  prefix_write v pfx id id_new w = elim (env.rib.add w.rib pfx id_new) [
    | none ↦ (ntb_err_code ntb_route_prefix_nospace, w)
    | some rib ↦ elim (env.fib.add (dp w v).fib (env.be_to_cpu pfx.prefix4) pfx.prefixlen id_new) [
      | none ↦ (ntb_err_code ntb_route_prefix_nospace, rib_rollback pfx id (record w { rib = rib }))
      | some fib ↦ (
        pos 0,
        set_dp (record w { rib = rib }) v
            (record (dp w v) {
              fib = fib;
              rib_cnt = if is_neg id then suc_ℤ (dp w v).rib_cnt else (dp w v).rib_cnt;
            }),
      )
    ]
  ]

  -- The types of the old and the new route are computed (they follow the pointers of the results)
  -- and lead to nothing: the calls that would use them are commented out.
  pub rt_prefix_obj_update : ℕ → RibKey → ℤ → ℤ → M env ℤ
  unfolding prefix_write rt_prefix_type_get
  rt_prefix_obj_update v pfx id id_new = do
    rt_ptype ← (if is_pos id then rt_prefix_type_get pfx id else pure rt_prefix_invalid)
    rt_ptype_new ← rt_prefix_type_get pfx id_new
    w ← get
    let (ret, w') = prefix_write v pfx id id_new w
    put w'
    pure ret

  -- The entries of the two tables go.
  abbrev pub prefix_erase : ℕ → RibKey → World env → World env
  prefix_erase v pfx w =
      set_dp (record w { rib = env.rib.del w.rib pfx }) v
        (record (dp w v) {
          fib = env.fib.delete (dp w v).fib (env.be_to_cpu pfx.prefix4) pfx.prefixlen;
          rib_cnt = pred_ℤ (dp w v).rib_cnt;
        })

  -- The result is that of rte_hash_del_key, about which the callers assert that it is 0.
  pub rt_prefix_obj_delete : ℕ → RibKey → ℤ → M env ℤ
  unfolding rt_prefix_type_get
  rt_prefix_obj_delete v pfx id = do
    rt_ptype ← rt_prefix_type_get pfx id
    w ← get
    put (prefix_erase v pfx w)
    pure (env.rib.del_ret w.rib pfx)
