-- ===== src/Route/Rib/Existing.antt =====
-- agent/route.c: ntb_route_nhop_insert, ntb_route_nhop_delete and ntb_route_delete at a prefix that has
-- a route.
use tao_p4code.Base.{
  ℕ, ℤ, pos, ◌≡◌, ◌≢◌, refl, sym, ap, ◌∙◌, inl, inr, true, false, none, some, ◌==◌, leb, ==_refl,
  if◌then◌else◌, arith, Option-cases,
}
use tao_p4code.Types.{
  FibRes, RibKey, NhopEncapData, RibType, rt_default, rt_mroute, rt_max, rib_type_eq,
}
use tao_p4code.Errno.{
  ntb_err_code, ntb_route_nexthop_ecmp_nospace, ntb_ipv4_routetype_no_same,
  ntb_route_prefix_not_found,
}
use tao_p4code.World.{Env, World, M, ok, pure, get, ◌>>=◌, bind}
use tao_p4code.Route.Result.{fib_res_get, fib_res_rtype_get, fib_res_mpath_nospace, mpath_read}
use tao_p4code.Route.Prefix.Write.{get-eq}
use tao_p4code.Route.Update.{
  run, any_equal, route_insert, insert_at, ntb_route_nhop_insert, has_nhop, drop_nhop, delete_at,
  delete_last, delete_one, ntb_route_nhop_delete, ntb_route_delete,
}
use tao_p4code.Route.Nhop.Safety.{BothSound}
use tao_p4code.Route.Rib.{RoutePath}

-- What the insertion at a route of the type `RT_DEFAULT` returns.
abbrev pub existing_code : RibType → ℤ
existing_code rib_type = ntb_err_code (
    if rib_type_eq rt_default rib_type
    then ntb_route_nexthop_ecmp_nospace
    else ntb_ipv4_routetype_no_same)

module _ {env : Env} (v : ℕ) (pfx : RibKey) (key : NhopEncapData) (w : World env)
    (r : RoutePath w pfx) where
  -- insert_at after the read of the result.
  insert_rest : RibType → FibRes → M env ℤ
  insert_rest rib_type f =
      if rib_type_eq (fib_res_rtype_get f) rib_type
      then (if fib_res_mpath_nospace f
          then pure (ntb_err_code ntb_route_nexthop_ecmp_nospace)
          else do
            paths ← run (mpath_read f.mpath_cnt f.mpath)
            found ← any_equal paths key
            if found
                then pure (pos 0)
                else route_insert v pfx key rib_type (pos r.id) (some f) paths)
      else pure (ntb_err_code ntb_ipv4_routetype_no_same)

  insert_rest-full :
      (rib_type : RibType)
      → insert_rest rib_type (w.fib_res r.id) w ≡ ok (existing_code rib_type, w)
  unfolding insert_rest
  insert_rest-full rt_default =
      let more : leb (w.fib_res r.id).mpath_max (w.fib_res r.id).mpath_cnt ≡ true =
        ground (arith, r.plain.count, r.plain.room) in
      rw (r.plain.unicast) (rw more refl)
  insert_rest-full rt_mroute = rw (r.plain.unicast) refl
  insert_rest-full rt_max = rw (r.plain.unicast) refl

  -- At a prefix that has a route of one path in the type RT_DEFAULT, ntb_route_nhop_insert of
  -- any next hop, the one that the route has included, returns NTB_ROUTE_NEXTHOP_ECMP_NOSPACE
  -- for the type RT_DEFAULT and NTB_IPV4_ROUTETYPE_NO_SAME for another type, and changes
  -- nothing.
  pub ntb_route_nhop_insert-existing :
      (rib_type : RibType)
      → ntb_route_nhop_insert v pfx key rib_type w ≡ ok (existing_code rib_type, w)
  unfolding ntb_route_nhop_insert insert_at insert_rest
  ntb_route_nhop_insert-existing rib_type =
      rw (r.entry, ntb_route_nhop_insert)
        (bind {w = w} (fib_res_get (pos r.id)) (insert_rest rib_type) (get-eq w r.id r.low)
          ∙ insert_rest-full rib_type)

  -- delete_at after the read of the result.
  delete_rest : FibRes → M env ℤ
  delete_rest f = do
    u ← get
    if rib_type_eq (fib_res_rtype_get f) rt_default
        then (elim (env.nhop.lookup u.nhop_tbl key) [
          | none ↦ pure (pos 0)
          | some p ↦ do
            paths ← run (mpath_read f.mpath_cnt f.mpath)
            if has_nhop (some p) paths
                then (if f.mpath_cnt == 1
                    then delete_last v pfx (pos r.id) (some p)
                    else delete_one v pfx rt_default (pos r.id) f (some p)
                        (drop_nhop (some p) paths))
                else pure (pos 0)
        ])
        else pure (ntb_err_code ntb_ipv4_routetype_no_same)

  delete-rest : ntb_route_nhop_delete v pfx key rt_default w ≡ delete_rest (w.fib_res r.id) w
  unfolding ntb_route_nhop_delete delete_at delete_rest
  delete-rest =
      rw (r.entry, ntb_route_nhop_delete)
        (bind {w = w} (fib_res_get (pos r.id)) delete_rest (get-eq w r.id r.low))

  -- The key of the route's own next hop.
  pub ntb_route_nhop_delete-own :
      key ≡ r.key
      → ntb_route_nhop_delete v pfx key rt_default w ≡ delete_last v pfx (pos r.id) (some r.at) w
  unfolding delete_rest
  ntb_route_nhop_delete-own e =
      let at : env.nhop.lookup w.nhop_tbl key ≡ some r.at =
        ap (env.nhop.lookup w.nhop_tbl) e ∙ r.hop in
      delete-rest
      ∙ rw (r.plain.unicast)
          (rw (at, delete_rest) (rw (r.plain.count, r.path) (rw (==_refl r.at) refl)))

  -- Another key: nothing changes.
  pub ntb_route_nhop_delete-other :
      BothSound w → key ≢ r.key → ntb_route_nhop_delete v pfx key rt_default w ≡ ok (pos 0, w)
  unfolding delete_rest
  ntb_route_nhop_delete-other s ne = elim (Option-cases (env.nhop.lookup w.nhop_tbl key)) [
    | inl e ↦ delete-rest ∙ rw (r.plain.unicast) (rw (e, delete_rest) refl)
    | inr (p, e) ↦
        let p_ne : p ≢ r.at = λ h. ne (s.0.apart key r.key p e (r.hop ∙ ap some (sym h))) in
        let off : (r.at == p) ≡ false = ground (arith, p_ne) in
        delete-rest
        ∙ rw (r.plain.unicast) (rw (e, delete_rest) (rw (r.plain.count, r.path) (rw off refl)))
  ]

-- Without a route there is nothing to delete.
module _ {env : Env} (v : ℕ) (pfx : RibKey) (w : World env) where
  pub ntb_route_nhop_delete-new :
      (key : NhopEncapData)
      → env.rib.lookup w.rib pfx ≡ none
      → ntb_route_nhop_delete v pfx key rt_default w ≡ ok (pos 0, w)
  unfolding ntb_route_nhop_delete
  ntb_route_nhop_delete-new key e = rw (e, ntb_route_nhop_delete) refl

  pub ntb_route_delete-new :
      env.rib.lookup w.rib pfx ≡ none
      → ntb_route_delete v pfx w ≡ ok (ntb_err_code ntb_route_prefix_not_found, w)
  unfolding ntb_route_delete
  ntb_route_delete-new e = rw (e, ntb_route_delete) refl
