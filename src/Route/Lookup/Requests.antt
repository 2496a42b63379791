-- ===== src/Route/Lookup/Requests.antt =====
-- What ntb_route_lookup asks of the switch, and which path a hash selects.
use tao_p4code.Base.{
  ℕ, ℤ, pos, ◌<◌, ◌≡◌, refl, ◌∙◌, inl, inr, some, ◌⊎◌, arith, Bool-cases, ◌==◌, if◌then◌else◌,
  is_neg, ltb, get_elem?,
}
use tao_p4code.Types.{FibRes, FibNhop, vxlan_remote}
use tao_p4code.Dpdk.{route_entry_add, route_entry_del, nhop_entry_add, nhop_entry_del, HalReq}
use tao_p4code.World.{bind, Env, World, ok, shc_hal_call, M, ◌>>=◌, pure}
use tao_p4code.Route.Result.{fib_res_get}
use tao_p4code.Route.Prefix.{mpath_load}
use tao_p4code.Route.Lookup.{
  fib_res_select_mpath, ntb_route_lookup, route_request, nhop_request, shc_hal_route_entry_add,
  shc_hal_route_entry_del, shc_hal_nhop_entry_add, shc_hal_nhop_entry_del,
}

-- The path that a hash selects is one of the result's paths, or the first where it has none.
pub select_mpath-lt :
    (r : FibRes) (hash : ℕ)
    → (fib_res_select_mpath r hash < r.mpath_cnt)
      ⊎ ((r.mpath_cnt ≡ 0) × (fib_res_select_mpath r hash ≡ 0))
unfolding fib_res_select_mpath
select_mpath-lt r hash = elim (Bool-cases (ltb 0 r.mpath_cnt)) [
  | inl e ↦ inl (ground arith)
  | inr e ↦ inr (ground arith)
]

-- The requests for a flow: flag 0 enters it, any other takes it out.
abbrev pub flow_request : ℕ → ℕ → ℕ → ℕ → FibNhop → HalReq
flow_request flag vrf_id src dst n =
    if flag == 0 then route_entry_add vrf_id src dst n.nh_oid else route_entry_del vrf_id src dst

abbrev pub hop_request : ℕ → FibNhop → HalReq
hop_request flag n =
    if flag == 0
    then nhop_entry_add n.nh_oid 11 0xD00001 (vxlan_remote n.tunnel_info) n.neigh_oid
    else nhop_entry_del n.nh_oid

module _ {env : Env} where
  -- The first path of the result `i`.
  pub record FirstHop (w : World env) (i p : ℕ) (n : FibNhop) : Type 0 where
    pub low : i < env.fb.len
    pub first : get_elem? (w.fib_res i).mpath 0 ≡ some (some p)
    pub live : w.nhops p ≡ some n

  pub load_first :
      (w u : World env) (i p : ℕ) (n : FibNhop)
      → FirstHop w i p n
      → u.nhops ≡ w.nhops
      → mpath_load (w.fib_res i) 0 u ≡ ok (n, u)
  unfolding mpath_load
  load_first w u i p n h same = rw (h.first, mpath_load) (rw (same, h.live) refl)

  pub get_res :
      (w : World env) (i : ℕ) → i < env.fb.len → fib_res_get (pos i) w ≡ ok (w.fib_res i, w)
  get_res w i low = ground arith

  route_request-eq :
      (w : World env) (i p : ℕ) (n : FibNhop) (vrf_id src dst flag : ℕ)
      → FirstHop w i p n
      → route_request vrf_id src dst (w.fib_res i) flag w
        ≡ ok (shc_hal_call w (flow_request flag vrf_id src dst n))
  unfolding route_request shc_hal_route_entry_add shc_hal_route_entry_del
  route_request-eq w i p n vrf_id src dst flag h = elim (Bool-cases (flag == 0)) [
    | inl e ↦
        rw (e, route_request)
          (bind (mpath_load (w.fib_res i) 0)
            (λ n'. shc_hal_route_entry_add vrf_id src dst n'.nh_oid) (load_first w w i p n h refl))
    | inr e ↦ rw (e, route_request) refl
  ]

  nhop_request-eq :
      (w : World env) (n : FibNhop) (flag : ℕ)
      → nhop_request n flag w ≡ ok (shc_hal_call w (hop_request flag n))
  unfolding nhop_request shc_hal_nhop_entry_add shc_hal_nhop_entry_del
  nhop_request-eq w n flag = elim (Bool-cases (flag == 0)) [
    | inl e ↦ rw (e, nhop_request) refl
    | inr e ↦ rw (e, nhop_request) refl
  ]

  call_keeps : (w : World env) (r : HalReq) → (shc_hal_call w r).1.nhops ≡ w.nhops
  unfolding shc_hal_call
  call_keeps w r = refl

  -- What ntb_route_lookup does after the request for the flow.
  abbrev hop_rest : ℕ → ℕ → FibNhop → M env (ℤ × ℤ)
  hop_rest i flag n = nhop_request n flag >>= λ ret. pure (if is_neg ret then ret else pos 0, pos i)

  abbrev flow_rest : ℕ → ℕ → FibRes → ℤ → M env (ℤ × ℤ)
  flow_rest i flag r ret =
      if is_neg ret then pure (ret, pos i) else (mpath_load r 0 >>= hop_rest i flag)

  flow_rest-eq :
      (w u : World env) (i p : ℕ) (n : FibNhop) (flag : ℕ) (ret : ℤ)
      → FirstHop w i p n
      → u.nhops ≡ w.nhops
      → let hop = shc_hal_call u (hop_request flag n) in
        flow_rest i flag (w.fib_res i) ret u
        ≡ ok (
            if is_neg ret
            then ((ret, pos i), u)
            else ((if is_neg hop.0 then hop.0 else pos 0, pos i), hop.1))
  flow_rest-eq w u i p n flag ret h same = elim (Bool-cases (is_neg ret)) [
    | inl e ↦ rw e refl
    | inr e ↦ rw e (
        bind (mpath_load (w.fib_res i) 0) (hop_rest i flag) (load_first w u i p n h same)
        ∙ bind (nhop_request n flag) (λ ret. pure (if is_neg ret then ret else pos 0, pos i))
            (nhop_request-eq u n flag))
  ]

  -- Where the longest prefix of the destination leads to a result whose first path is a live
  -- next hop, ntb_route_lookup makes the request for the flow, in host byte order; if the switch
  -- accepts it, it makes the request for the next hop and returns what becomes of that;
  -- otherwise it stops there with the error. In either case the result is the one that the
  -- prefix leads to.
  pub ntb_route_lookup-requests :
      (w : World env) (v sip dip flag i p : ℕ) (n : FibNhop)
      → env.fib.lookup (w.vrfs v).dp.fib (env.be_to_cpu dip) ≡ pos i
      → FirstHop w i p n
      → let flow =
          shc_hal_call w
            (flow_request flag (w.vrfs v).dp.vrf_id (env.be_to_cpu sip) (env.be_to_cpu dip) n) in
        let hop = shc_hal_call flow.1 (hop_request flag n) in
        ntb_route_lookup v sip dip flag w
        ≡ ok (
            if is_neg flow.0
            then ((flow.0, pos i), flow.1)
            else ((if is_neg hop.0 then hop.0 else pos 0, pos i), hop.1))
  unfolding ntb_route_lookup
  ntb_route_lookup-requests w v sip dip flag i p n at h =
      let src = env.be_to_cpu sip in
      let dst = env.be_to_cpu dip in
      let vrf_id = (w.vrfs v).dp.vrf_id in
      rw at (
        bind {w = w} (fib_res_get (pos i))
          (λ r. route_request vrf_id src dst r flag >>= flow_rest i flag r) (get_res w i h.low)
        ∙ bind (route_request vrf_id src dst (w.fib_res i) flag) (flow_rest i flag (w.fib_res i))
            (route_request-eq w i p n vrf_id src dst flag h)
        ∙ flow_rest-eq w (shc_hal_call w (flow_request flag vrf_id src dst n)).1 i p n flag
            (shc_hal_call w (flow_request flag vrf_id src dst n)).0 h
            (call_keeps w (flow_request flag vrf_id src dst n)))
