-- ===== src/Route/Result/Single.antt =====
-- agent/route.c: the result of a route with one path, and the end of the array of paths.
use tao_p4code.Base.{
  false, ◌≢◌, ◌==◌, if◌then◌else◌, ℕ, pos, ◌<◌, ◌≡◌, ◌⊎◌, refl, ap, ◌∙◌, inl, inr, true, Option,
  none, some, List, [], ◌∷◌, Option-cases, update_self, ==_refl, arith,
}
use tao_p4code.Dpdk.Owned.{update_ne}
use tao_p4code.Types.{has_flag, frf_mroute, FibRes, FibNhop, RibType, rt_default}
use tao_p4code.Errno.{ntb_err_code, ntb_route_result_nospace}
use tao_p4code.World.{Env, World, ok, fault, Returns, Returns-mono}
use tao_p4code.Route.Result.{
  write_res, fib_res_md_set, fib_res_obj_create, fib_res_id_alloc, fib_res_build, fib_res_oid_set,
  fib_res_reset,
}

-- A result of the type that holds at most one path, and holds one.
pub record IsPlain (r : FibRes) : Type 0 where
  pub count : r.mpath_cnt ≡ 1
  pub room : r.mpath_max ≡ 1
  pub unicast : has_flag r frf_mroute ≡ false

-- The result of one path.
abbrev single : FibRes → ℕ → FibNhop → FibRes
single r p n =
    fib_res_md_set
      (record (fib_res_reset r) { mpath = some p ∷ []; mpath_cnt = 1; f_res_oid = n.nh_oid })
      rt_default

module _ {env : Env} where
  -- The states agree on the next hops and on the neighbours.
  pub record SameNhops (w u : World env) : Type 0 where
    pub nhop_tbl : u.nhop_tbl ≡ w.nhop_tbl
    pub nhops : u.nhops ≡ w.nhops
    pub neigh_tbl : u.neigh_tbl ≡ w.neigh_tbl
    pub neighs : u.neighs ≡ w.neighs

  -- The result `id` is in use, and has the one path `p`.
  pub record OnePath (u : World env) (id p : ℕ) : Type 0 where
    pub low : id < env.fb.len
    pub taken : env.fb.used u.fb id ≡ true
    pub count : (u.fib_res id).mpath_cnt ≡ 1
    pub path : (u.fib_res id).mpath ≡ some p ∷ []

  -- The state in which the element `id` has been taken and reset.
  reset_at : World env → ℕ → World env
  reset_at w id =
      write_res id (fib_res_reset (w.fib_res id)) (record w { fb = env.fb.set_used w.fb id })

  alloc-eq :
      (w : World env) (id : ℕ)
      → env.fb.find_next_free w.fb ≡ some id
      → fib_res_id_alloc w ≡ (pos id, reset_at w id)
  unfolding fib_res_id_alloc reset_at
  alloc-eq w id e = rw (e, fib_res_id_alloc) refl

  reset_self : (w : World env) (id : ℕ) → (reset_at w id).fib_res id ≡ fib_res_reset (w.fib_res id)
  unfolding reset_at
  reset_self w id = update_self w.fib_res id _

  build-one :
      (u : World env) (id p : ℕ) (n : FibNhop) (r : FibRes)
      → u.fib_res id ≡ fib_res_reset r
      → u.nhops p ≡ some n
      → fib_res_build id (some p ∷ []) none rt_default u
        ≡ ok (pos id, write_res id (single r p n) u)
  unfolding fib_res_build fib_res_oid_set
  build-one u id p n r h live = rw (h, fib_res_build, live) refl

  build-two :
      (u : World env) (id : ℕ) (p q : Option ℕ) (rest : List (Option ℕ)) (old : Option FibRes)
      (rib_type : RibType) (r : FibRes)
      → u.fib_res id ≡ fib_res_reset r
      → fib_res_build id (p ∷ q ∷ rest) old rib_type u ≡ fault
  unfolding fib_res_build
  build-two u id p q rest old rib_type r h = rw (h, fib_res_build) refl

  create-eq :
      (w : World env) (nhops : List (Option ℕ)) (old : Option FibRes) (rib_type : RibType) (id : ℕ)
      → env.fb.find_next_free w.fb ≡ some id
      → fib_res_obj_create nhops old rib_type w
        ≡ fib_res_build id nhops old rib_type (reset_at w id)
  unfolding fib_res_obj_create
  create-eq w nhops old rib_type id e =
      rw (alloc-eq w id e, fib_res_obj_create)
        (ap (λ a. fib_res_build id nhops old rib_type a.1) (alloc-eq w id e))

  -- The element `id`, which was free, is the result of the one path `p`; all else is as in `w`.
  pub record NewResult (w u : World env) (id p : ℕ) : Type 0 where
    pub low : id < env.fb.len
    pub was_free : env.fb.used w.fb id ≡ false
    pub used : (j : ℕ) → env.fb.used u.fb j ≡ (if j == id then true else env.fb.used w.fb j)
    pub others : (j : ℕ) → j ≢ id → u.fib_res j ≡ w.fib_res j
    pub path : (u.fib_res id).mpath ≡ some p ∷ []
    pub plain : IsPlain (u.fib_res id)
    pub rib : u.rib ≡ w.rib
    pub nhops : SameNhops w u

  pub fib_res_obj_create-NewResult :
      (w : World env) (p : ℕ) (n : FibNhop)
      → w.nhops p ≡ some n
      → Returns
          (λ ret u.
            ((ret ≡ ntb_err_code ntb_route_result_nospace) × (u ≡ w))
            ⊎ ((id : ℕ) × (ret ≡ pos id) × NewResult w u id p))
          (fib_res_obj_create (some p ∷ []) none rt_default w)
  unfolding fib_res_obj_create fib_res_id_alloc reset_at
  fib_res_obj_create-NewResult w p n live = elim (Option-cases (env.fb.find_next_free w.fb)) [
    | inl e ↦ rw (e, fib_res_id_alloc, fib_res_obj_create) (inl (refl, refl))
    | inr (id, e) ↦ rw (create-eq w (some p ∷ []) none rt_default id e) (
        rw (build-one (reset_at w id) id p n (w.fib_res id) (reset_self w id) live) (
          inr (
            id,
            refl,
            record {
              low = env.fb.find_next_free-lt w.fb id e;
              was_free = env.fb.find_next_free-used w.fb id e;
              used = env.fb.used-set_used w.fb id;
              others = λ j ne.
                  update_ne (reset_at w id).fib_res id j _ ne ∙ update_ne w.fib_res id j _ ne;
              path = ap (λ r. r.mpath) (update_self (reset_at w id).fib_res id _);
              plain = record {
                count = ap (λ r. r.mpath_cnt) (update_self (reset_at w id).fib_res id _);
                room = ap (λ r. r.mpath_max) (update_self (reset_at w id).fib_res id _);
                unicast =
                    ap (λ r. has_flag r frf_mroute) (update_self (reset_at w id).fib_res id _);
              };
              rib = refl;
              nhops = record { nhop_tbl = refl; nhops = refl; neigh_tbl = refl; neighs = refl };
            },
          )))
  ]

  -- fib_res_obj_create for one live next hop.
  pub fib_res_obj_create-one :
      (w : World env) (p : ℕ) (n : FibNhop)
      → w.nhops p ≡ some n
      → Returns
          (λ ret u.
            ((ret ≡ ntb_err_code ntb_route_result_nospace) × (u ≡ w))
            ⊎ ((id : ℕ) × (ret ≡ pos id) × OnePath u id p × SameNhops w u))
          (fib_res_obj_create (some p ∷ []) none rt_default w)
  fib_res_obj_create-one w p n live =
      Returns-mono _ _ (fib_res_obj_create (some p ∷ []) none rt_default w)
        (fib_res_obj_create-NewResult w p n live)
        (λ ret u h. elim h [
          | inl full ↦ inl full
          | inr (id, e, new) ↦ inr (
            id,
            e,
            record {
              low = new.low;
              taken = new.used id ∙ ground (arith, ==_refl id);
              count = new.plain.count;
              path = new.path;
            },
            new.nhops,
          )
        ])

  -- Where the array of results has a free element, fib_res_obj_create of two next hops or more,
  -- for a multicast route as well, writes the second path beyond the ROUTE_MAX_ECMP slots of the
  -- result.
  pub fib_res_obj_create-two :
      (w : World env) (p q : Option ℕ) (rest : List (Option ℕ)) (old : Option FibRes)
      (rib_type : RibType) (id : ℕ)
      → env.fb.find_next_free w.fb ≡ some id
      → fib_res_obj_create (p ∷ q ∷ rest) old rib_type w ≡ fault
  fib_res_obj_create-two w p q rest old rib_type id e =
      create-eq w (p ∷ q ∷ rest) old rib_type id e
      ∙ build-two (reset_at w id) id p q rest old rib_type (w.fib_res id) (reset_self w id)
