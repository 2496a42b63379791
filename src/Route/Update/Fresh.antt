-- ===== src/Route/Update/Fresh.antt =====
-- ntb_route_nhop_insert of a prefix that has no route yet.
use tao_p4code.Base.{
  ℕ, ℤ, pos, negsuc, ◌<◌, ◌≡◌, ◌⊎◌, refl, sym, ap, ◌∙◌, inl, inr, true, Option, none, some, [], ◌∷◌,
  is_neg, if◌then◌else◌, subst,
}
use tao_p4code.Types.{RibKey, NhopEncapData, rt_default}
use tao_p4code.Dpdk.Owned.{Owned-eq}
use tao_p4code.World.{Env, World, ok, M, pure, ◌>>=◌, ◌>>◌, get, put, Returns, Returns-follow, bind}
use tao_p4code.Neigh.Safety as NeighSafety
use tao_p4code.Route.Nhop.{nhop_obj_create, nhop_obj_delete}
use tao_p4code.Route.Nhop.Safety.{InUse, IsSound, BothSound, NhopRoom, NeighRoom}
use tao_p4code.Route.Nhop.Create.{Created, nhop_obj_create-IsSound}
use tao_p4code.Route.Nhop.Delete.{nhop_obj_delete-IsSound}
use tao_p4code.Route.Result.{fib_res_obj_create, fib_res_obj_delete, fib_res_id_free, fib_res_get}
use tao_p4code.Route.Result.Single.{SameNhops, OnePath, fib_res_obj_create-one}
use tao_p4code.Route.Prefix.{rt_prefix_obj_update}
use tao_p4code.Route.Prefix.Write.{Routed, Written, get-eq, rt_prefix_obj_update-Written}
use tao_p4code.Route.Update.{ntb_route_nhop_insert, route_insert}

module _ {env : Env} where
  pub both-same : (w u : World env) → SameNhops w u → BothSound w → BothSound u
  both-same w u same s = (
    Owned-eq env.nhop InUse same.nhop_tbl same.nhops s.0,
    Owned-eq env.neigh NeighSafety.InUse same.neigh_tbl same.neighs s.1,
  )

  -- The prefix has the one next hop of `key`: the RIB and the FIB lead to a result in use, whose one
  -- path is the object that the table of next hops holds under `key`.
  pub record IsRoute (u : World env) (v : ℕ) (pfx : RibKey) (key : NhopEncapData) : Type 0 where
    pub id : ℕ
    pub at : ℕ
    pub routed : Routed u v pfx id
    pub one : OnePath u id at
    pub hop : env.nhop.lookup u.nhop_tbl key ≡ some at

  abbrev pub Inserted : ℕ → RibKey → NhopEncapData → ℤ → World env → Type 0
  Inserted v pfx key ret u =
      BothSound u × ((is_neg ret ≡ true) ⊎ ((ret ≡ pos 0) × IsRoute u v pfx key))

  module _ (v : ℕ) (pfx : RibKey) (key : NhopEncapData) where
    -- The roll-back takes the next hop back.
    undo :
        (p : ℕ) (ret : ℤ) (u : World env)
        → BothSound u
        → env.nhop.lookup u.nhop_tbl key ≡ some p
        → is_neg ret ≡ true
        → Returns (Inserted v pfx key) ((nhop_obj_delete v (some p) >>= λ _. pure ret) u)
    undo p ret u s at neg =
        Returns-follow _ (Inserted v pfx key) (nhop_obj_delete v (some p) u) (λ _. pure ret)
          (nhop_obj_delete-IsSound v key p u s.0 s.1 at) (λ _ u' h. (h.1, inl neg))

    pub delete-eq :
        (u : World env) (id : ℕ)
        → id < env.fb.len
        → fib_res_obj_delete (pos id) u ≡ ok (pos 0, fib_res_id_free (pos id) u)
    unfolding fib_res_obj_delete
    delete-eq u id low =
        bind {w = u} (fib_res_get (pos id))
          (λ r. get >>= λ w. put (fib_res_id_free (pos id) w) >> pure (pos 0)) (get-eq u id low)

    -- The rest of route_insert after the entry of the prefix, and after the creation of the result.
    unfoldable pub after_update : ℕ → ℤ → ℤ → M env ℤ
    after_update p id_new ret =
        if is_neg ret
        then (fib_res_obj_delete id_new >>= λ _. nhop_obj_delete v (some p) >>= λ _. pure ret)
        else pure ret

    after_update-Inserted :
        (p id : ℕ) (ret : ℤ) (w u : World env)
        → BothSound w
        → env.nhop.lookup w.nhop_tbl key ≡ some p
        → OnePath w id p
        → Written w v pfx id ret u
        → Returns (Inserted v pfx key) (after_update p (pos id) ret u)
    unfolding after_update fib_res_id_free
    after_update-Inserted p id ret w u s at one (same, done) = elim done [
      | inl (neg, _) ↦
          let u' : World env = fib_res_id_free (pos id) u in
          rw neg (
            subst (Returns (Inserted v pfx key))
              (sym (
                bind {w = u} (fib_res_obj_delete (pos id))
                  (λ _. nhop_obj_delete v (some p) >>= λ _. pure ret) (delete-eq u id one.low)))
              (undo p ret u'
                (both-same u u'
                  (record { nhop_tbl = refl; nhops = refl; neigh_tbl = refl; neighs = refl })
                  (both-same w u same.nhops s))
                (ap (λ t. env.nhop.lookup t key) same.nhops.nhop_tbl ∙ at) neg))
      | inr (zero, routed, _) ↦ rw zero (
        both-same w u same.nhops s,
        inr (
          refl,
          record {
            id = id;
            at = p;
            routed = routed;
            one = record {
              low = one.low;
              taken = ap (λ a. env.fb.used a id) same.fb ∙ one.taken;
              count = ap (λ f. (f id).mpath_cnt) same.fib_res ∙ one.count;
              path = ap (λ f. (f id).mpath) same.fib_res ∙ one.path;
            };
            hop = ap (λ t. env.nhop.lookup t key) same.nhops.nhop_tbl ∙ at;
          },
        ),
      )
    ]

    unfoldable pub after_result : ℕ → ℤ → M env ℤ
    unfolding after_update
    after_result p id_new =
        if is_neg id_new
        then (nhop_obj_delete v (some p) >>= λ _. pure id_new)
        else (rt_prefix_obj_update v pfx (negsuc 0) id_new >>= after_update p id_new)

    after_result-Inserted :
        (p : ℕ) (u : World env)
        → BothSound u
        → env.nhop.lookup u.nhop_tbl key ≡ some p
        → Returns
            (Inserted v pfx key)
            ((fib_res_obj_create (some p ∷ []) none rt_default >>= after_result p) u)
    unfolding after_result
    after_result-Inserted p u s at =
        let (n, live, own) = s.0.live key p at in
        Returns-follow _ (Inserted v pfx key) (fib_res_obj_create (some p ∷ []) none rt_default u)
          (after_result p) (fib_res_obj_create-one u p n live)
          (λ ret w h. elim h [
            | inl (full, same) ↦ rw (full, same) (undo p _ u s at refl)
            | inr (id, e, one, same) ↦ rw e (
                Returns-follow _ (Inserted v pfx key)
                  (rt_prefix_obj_update v pfx (negsuc 0) (pos id) w) (after_update p (pos id))
                  (rt_prefix_obj_update-Written w v pfx id p n one
                    (ap (λ g. g p) same.nhops ∙ live))
                  (λ ret' w' written.
                    after_update-Inserted p id ret' w w' (both-same u w same s)
                      (ap (λ t. env.nhop.lookup t key) same.nhop_tbl ∙ at) one written))
          ])

    -- In a sound state, where the counts of the next hop and of its neighbour, if they exist,
    -- are not at their largest value, ntb_route_nhop_insert of a route of type RT_DEFAULT at a
    -- prefix that the RIB does not have returns on every branch and leaves the tables of next
    -- hops and neighbours sound. Either the result is negative, or it is 0 and then the RIB and
    -- the FIB of the VRF lead from the prefix to a result in use whose one path is the object
    -- that the table of next hops holds under the argument.
    pub ntb_route_nhop_insert-Inserted :
        (w : World env)
        → IsSound w
        → NeighSafety.IsSound w
        → NhopRoom key w
        → NeighRoom v key w
        → env.rib.lookup w.rib pfx ≡ none
        → Returns (Inserted v pfx key) (ntb_route_nhop_insert v pfx key rt_default w)
    unfolding ntb_route_nhop_insert route_insert after_result after_update
    ntb_route_nhop_insert-Inserted w s t room neigh_room new =
        rw (new, ntb_route_nhop_insert)
          (Returns-follow (Created key) (Inserted v pfx key) (nhop_obj_create v key w) _
            (nhop_obj_create-IsSound v key w s t room neigh_room) (λ (ret, o) u c. step ret o u c))
      where
        rest : ℤ → Option ℕ → M env ℤ
        rest ret o = if is_neg ret then pure ret else do
          id_new ← fib_res_obj_create (o ∷ []) none rt_default
          if is_neg id_new then (nhop_obj_delete v o >>= λ _. pure id_new) else do
            ret ← rt_prefix_obj_update v pfx (negsuc 0) id_new
            if is_neg ret
                then (fib_res_obj_delete id_new >>= λ _. nhop_obj_delete v o >>= λ _. pure ret)
                else pure ret

        step :
            (ret : ℤ) (o : Option ℕ) (u : World env)
            → Created key (ret, o) u
            → Returns (Inserted v pfx key) (rest ret o u)
        step (negsuc r) o u c = (c, inl refl)
        step (pos r) none u c = absurd c
        step (pos r) (some p) u c = after_result-Inserted p u c.0 c.1
