-- ===== src/Route/Nhop.antt =====
-- agent/route.c: the objects of the next hops, which `g_nhop_hash_tbl` finds by gateway and tunnel.
pub mod Safety
pub mod Kept
pub mod Draft
pub mod Alloc
pub mod Create
pub mod Delete
pub mod Near
pub mod Change
pub mod Fewer
use tao_p4code.Base.{
  ℕ, ℤ, pos, is_neg, Bool, false, ◌&&◌, Option, none, some, ◌==◌, leb, if◌then◌else◌, update, inc32,
  dec32,
}
use tao_p4code.Types.{
  EncapType, invalid, vxlan, tgre, encap_max, tunnel_info_eq, NhopEncapData, FibNhop, zero_fib_nhop,
}
use tao_p4code.Errno.{ntb_err_code, ntb_comm_nomem, ntb_route_nh_alloc_oid_fail, efault}
use tao_p4code.World.{Env, World, ok, fault, M, pure, ◌>>=◌, ◌>>◌, get, put, deref}
use tao_p4code.Neigh.{ntb_neigh_add, ntb_neigh_del}

-- `fib_nhop_equal`, for each type of the tunnel.
abbrev pub fib_nhop_equal_at : EncapType → FibNhop → NhopEncapData → Bool
fib_nhop_equal_at vxlan n key =
    n.gateway == key.gateway && tunnel_info_eq n.tunnel_info key.tunnel_info
fib_nhop_equal_at tgre n key = tunnel_info_eq n.tunnel_info key.tunnel_info
fib_nhop_equal_at invalid n key = false
fib_nhop_equal_at encap_max n key = false

abbrev pub fib_nhop_equal : FibNhop → NhopEncapData → Bool
fib_nhop_equal n key = fib_nhop_equal_at n.tunnel_info.type n key

-- The key of an object: `struct ntb_nhop_hash_key`.
abbrev pub nhop_key : FibNhop → NhopEncapData
nhop_key n = record { gateway = n.gateway; tunnel_info = n.tunnel_info }

-- An object with the two fields that nhop_obj_create copies from its argument.
abbrev pub nhop_of : NhopEncapData → FibNhop
nhop_of d = record zero_fib_nhop { gateway = d.gateway; tunnel_info = d.tunnel_info }

module _ {env : Env} where
  -- `*p` for a pointer to a next hop: a fault at NULL and at a freed object.
  abbrev pub load_nhop : Option ℕ → M env FibNhop
  load_nhop none w = fault
  load_nhop (some p) w = deref (w.nhops p) w

  abbrev pub store_nhop : ℕ → Option FibNhop → World env → World env
  store_nhop p n w = record w { nhops = update w.nhops p n }

  -- The label rollback4 and what follows it: the key and the object go.
  pub rollback4 : NhopEncapData → ℕ → World env → World env
  rollback4 key p w = record w {
    nhop_tbl = env.nhop.del w.nhop_tbl key;
    nhops = update w.nhops p none;
  }

  -- The label rollback3: the use of the neighbour goes first.
  pub rollback3 : ℕ → NhopEncapData → ℕ → M env (Unit {0})
  rollback3 v key p w =
      if key.gateway == 0
      then ok (tt, rollback4 key p w)
      else elim (ntb_neigh_del w v key.gateway) [
        | fault ↦ fault
        | ok (r, w') ↦ ok (tt, rollback4 key p w')
      ]

  -- The object id of a new next hop. The result is that of `hal_nhop_alloc_oid` where it is not
  -- negative.
  nhop_alloc : ℕ → NhopEncapData → ℕ → ℕ → M env ℤ
  unfolding rollback3 rollback4
  nhop_alloc v key p neigh_oid w =
      let (ret, oid, hw) = env.hal.nhop_alloc_oid w.hw in
      let w' : World env = record w { hw = hw } in
      if is_neg ret
      then (rollback3 v key p >> pure (ntb_err_code ntb_route_nh_alloc_oid_fail)) w'
      else ok (
        ret,
        store_nhop p (some (record (nhop_of key) { neigh_oid = neigh_oid; nh_oid = oid })) w',
      )

  -- The neighbour of a new next hop with a gateway, then its object id.
  pub nhop_neigh : ℕ → NhopEncapData → ℕ → M env ℤ
  unfolding nhop_alloc rollback4
  nhop_neigh v key p w =
      if key.gateway == 0 then nhop_alloc v key p 0 w else elim (ntb_neigh_add w v key.gateway) [
        | fault ↦ fault
        | ok ((ret, oid), w') ↦
            if is_neg ret
            then ok (ret, rollback4 key p w')
            else nhop_alloc v key p (elim oid [ none ↦ 0 | some o ↦ o ]) w'
      ]

  -- The branch of nhop_obj_create that makes the object: the result, and the address if it is made.
  nhop_new : ℕ → NhopEncapData → M env (ℤ × Option ℕ)
  unfolding nhop_neigh
  nhop_new v key w = elim (env.zmalloc w.nhops) [
    | none ↦ ok ((ntb_err_code ntb_comm_nomem, none), w)
    | some p ↦ elim (env.nhop.add w.nhop_tbl key p) [
      | none ↦ ok ((efault, none), w)
      | some tbl ↦
          (nhop_neigh v key p >>= λ ret. pure (ret, if is_neg ret then none else some p))
            (record w { nhop_tbl = tbl; nhops = update w.nhops p (some (nhop_of key)) })
    ]
  ]

  -- `f_nhop->ref_count++`.
  pub nhop_use : ℕ → M env (Unit {0})
  nhop_use p w = elim (w.nhops p) [
    | none ↦ fault
    | some n ↦ ok (tt, store_nhop p (some (record n { ref_count = inc32 n.ref_count })) w)
  ]

  -- The end of nhop_obj_create after a new object, or after a failure.
  abbrev created_step : ℤ × Option ℕ → M env (ℤ × Option ℕ)
  created_step (ret, none) w = ok ((ret, none), w)
  created_step (ret, some p) w = (nhop_use p >> pure (ret, some p)) w

  -- The result, and what it writes to `*fib_nhop_ret` (`none`: nothing).
  pub nhop_obj_create : ℕ → NhopEncapData → M env (ℤ × Option ℕ)
  unfolding nhop_new nhop_use
  nhop_obj_create v key w = elim (env.nhop.lookup w.nhop_tbl key) [
    | some p ↦ (nhop_use p >> pure (pos 0, some p)) w
    | none ↦ (nhop_new v key >>= created_step) w
  ]

  -- The last use of a next hop goes: its key, the use of its neighbour, and the object.
  nhop_release : ℕ → ℕ → FibNhop → M env (Unit {0})
  nhop_release v p n w =
      let w' : World env = record w { nhop_tbl = env.nhop.del w.nhop_tbl (nhop_key n) } in
      if n.gateway == 0
      then ok (tt, store_nhop p none w')
      else elim (ntb_neigh_del w' v n.gateway) [
        | fault ↦ fault
        | ok (r, u) ↦ ok (tt, store_nhop p none u)
      ]

  -- `f_nhop` is the pointer's value. The result is 0.
  pub nhop_obj_delete : ℕ → Option ℕ → M env ℤ
  unfolding nhop_release
  nhop_obj_delete v none w = fault
  nhop_obj_delete v (some p) w = elim (w.nhops p) [
    | none ↦ fault
    | some n ↦
        let n' : FibNhop = record n { ref_count = dec32 n.ref_count } in
        let w' = store_nhop p (some n') w in
        if leb 1 n'.ref_count then ok (pos 0, w') else (nhop_release v p n' >> pure (pos 0)) w'
  ]
