-- ===== src/Route/Rib/Insert.antt =====
-- ntb_route_nhop_insert of a prefix that has no route, in terms of the routes of all prefixes.
use tao_p4code.Base.{
  ℕ, ℤ, pos, negsuc, ◌+◌, ◌≤◌, ◌^◌, ◌<◌, ◌≡◌, ◌≢◌, ◌⊎◌, refl, sym, ap, ◌∙◌, inl, inr, true, Option,
  none, some, [], ◌∷◌, if◌then◌else◌, subst, is_neg,
}
use mathlib.Core.Option.{some-injective}
use tao_p4code.Types.{RibKey, NhopEncapData, rt_default}
use tao_p4code.World.{Env, World, M, pure, ◌>>=◌, Returns, Returns-follow, bind}
use tao_p4code.Neigh.Bound.{AtMost}
use tao_p4code.Route.Nhop.{nhop_obj_create, nhop_obj_delete}
use tao_p4code.Route.Nhop.Safety.{NeighRoom}
use tao_p4code.Route.Result.{fib_res_obj_create, fib_res_obj_delete, fib_res_id_free}
use tao_p4code.Route.Result.Single.{
  SameNhops, OnePath, IsPlain, NewResult, fib_res_obj_create-NewResult,
}
use tao_p4code.Route.Prefix.{rt_prefix_obj_update}
use tao_p4code.Route.Prefix.Write.{
  RibKey-discrete, Routed, SameResults, Written, rt_prefix_obj_update-Written,
}
use tao_p4code.Route.Update.{ntb_route_nhop_insert, route_insert}
use tao_p4code.Route.Update.Fresh.{delete-eq, after_update, after_result}
use tao_p4code.Route.Rib.{no_extra, one_extra, IsRib, SameView, Becomes, view-key}
use tao_p4code.Route.Rib.Same.{IsRib-same, view-same}
use tao_p4code.Route.Rib.Uses.{Gained, nhop_obj_create-Gained}
use tao_p4code.Route.Rib.Release.{nhop_obj_delete-Kept}
use tao_p4code.Route.Rib.Results.{
  Unrouted, OneMore, new-OneMore, freed-OneMore, SameResults-SameHops, IsRib-more, Unrouted-more,
  SameView-more, IsRib-less, SameView-less,
}

module _ {env : Env} where
  abbrev pub Inserts : ℕ → World env → RibKey → NhopEncapData → ℤ → World env → Type 0
  Inserts limit w pfx key ret u =
      IsRib limit no_extra u
      × (((is_neg ret ≡ true) × SameView w u) ⊎ ((ret ≡ pos 0) × Becomes w pfx (some key) u))

  -- The state has a result for the next hop of `key`, which no prefix leads to.
  pub record Ready (limit : ℕ) (pfx : RibKey) (key : NhopEncapData) (w : World env) (id p : ℕ)
      : Type 0 where
    pub valid : IsRib limit no_extra w
    pub free : Unrouted w id
    pub one : OnePath w id p
    pub plain : IsPlain (w.fib_res id)
    pub at : env.nhop.lookup w.nhop_tbl key ≡ some p
    pub new : env.rib.lookup w.rib pfx ≡ none

  module _ (v limit : ℕ) (pfx : RibKey) (key : NhopEncapData) (start : World env) where
    -- The roll-back takes the next hop back.
    undo :
        (p : ℕ) (ret : ℤ) (u : World env)
        → IsRib limit (one_extra p) u
        → SameView start u
        → env.nhop.lookup u.nhop_tbl key ≡ some p
        → is_neg ret ≡ true
        → Returns (Inserts limit start pfx key) ((nhop_obj_delete v (some p) >>= λ _. pure ret) u)
    undo p ret u h seen at neg =
        Returns-follow _ (Inserts limit start pfx key) (nhop_obj_delete v (some p) u)
          (λ _. pure ret) (nhop_obj_delete-Kept v limit key u p h at)
          (λ _ u' (done, h', kept). (h', inl (neg, λ k. kept.seen k ∙ seen k)))

    -- The prefix leads to the new result.
    entered :
        (id p : ℕ) (w u : World env)
        → Ready limit pfx key w id p
        → SameView start w
        → SameResults w u
        → Routed u v pfx id
        → ((k : RibKey) → k ≢ pfx → env.rib.lookup u.rib k ≡ env.rib.lookup w.rib k)
        → IsRib limit no_extra u × Becomes start pfx (some key) u
    entered id p w u r seen same routed others =
        let same' = SameResults-SameHops limit w u r.valid.both r.valid.most same in
        (
          IsRib-same limit no_extra w u r.valid same'
              (λ k z e. elim (RibKey-discrete k pfx) [
                | yes eq ↦ record {
                  id = id;
                  at = p;
                  is =
                      some-injective z (pos id) (sym e ∙ ap (env.rib.lookup u.rib) eq ∙ routed.rib);
                  low = r.one.low;
                  taken = r.one.taken;
                  path = r.one.path;
                  plain = r.plain;
                }
                | no ne ↦ r.valid.routed k z (sym (others k ne) ∙ e)
              ])
              (λ j k i e f. elim (RibKey-discrete j pfx) [
                | yes eq ↦ elim (RibKey-discrete k pfx) [
                  | yes eq' ↦ eq ∙ sym eq'
                  | no ne ↦ absurd (
                      r.free k
                        (sym (others k ne) ∙ f ∙ sym e ∙ ap (env.rib.lookup u.rib) eq ∙ routed.rib))
                ]
                | no ne ↦ elim (RibKey-discrete k pfx) [
                  | yes eq' ↦ absurd (
                      r.free j (
                        sym (others j ne) ∙ e ∙ sym f ∙ ap (env.rib.lookup u.rib) eq' ∙ routed.rib))
                  | no ne' ↦ r.valid.apart j k i (sym (others j ne) ∙ e) (sym (others k ne') ∙ f)
                ]
              ]),
          (
            view-key u pfx id p key same'.both routed.rib
                (ap (λ g. (g id).mpath) same'.fib_res ∙ r.one.path) (same'.keys key ∙ r.at),
            λ k ne. view-same limit no_extra w u r.valid same' k (others k ne) ∙ seen k,
          ),
        )

    after_update-Inserts :
        (id p : ℕ) (ret : ℤ) (w u : World env)
        → Ready limit pfx key w id p
        → SameView start w
        → Written w v pfx id ret u
        → Returns (Inserts limit start pfx key) (after_update v pfx key p (pos id) ret u)
    unfolding after_update fib_res_id_free
    after_update-Inserts id p ret w u r seen (same, done) = elim done [
      | inl (neg, back) ↦
          let entry = back r.new in
          let same' = SameResults-SameHops limit w u r.valid.both r.valid.most same in
          let s : World env = fib_res_id_free (pos id) u in
          let h : IsRib limit no_extra u =
            IsRib-same limit no_extra w u r.valid same'
              (λ k z e. r.valid.routed k z (sym (entry k) ∙ e))
              (λ j k i e f. r.valid.apart j k i (sym (entry j) ∙ e) (sym (entry k) ∙ f)) in
          let m : OneMore s u id p = freed-OneMore u id p (record {
            low = r.one.low;
            taken = ap (λ a. env.fb.used a id) same.fb ∙ r.one.taken;
            count = ap (λ g. (g id).mpath_cnt) same.fib_res ∙ r.one.count;
            path = ap (λ g. (g id).mpath) same.fib_res ∙ r.one.path;
          }) in
          let same_hops : SameNhops s u = record {
            nhop_tbl = refl;
            nhops = refl;
            neigh_tbl = refl;
            neighs = refl;
          } in
          let free : Unrouted u id = λ k e. r.free k (sym (entry k) ∙ e) in
          rw neg (
            subst (Returns (Inserts limit start pfx key))
              (sym (
                bind {w = u} (fib_res_obj_delete (pos id))
                  (λ _. nhop_obj_delete v (some p) >>= λ _. pure ret)
                  (delete-eq v pfx key u id r.one.low)))
              (undo p ret s (IsRib-less s u id p m limit refl same_hops h free)
                (λ k.
                  SameView-less s u id p m limit refl same_hops h free k
                  ∙ view-same limit no_extra w u r.valid same' k (entry k)
                  ∙ seen k)
                (same'.keys key ∙ r.at) neg))
      | inr (zero_ret, routed, others) ↦ rw zero_ret (
          let (h, becomes) = entered id p w u r seen same routed others in (h, inr (refl, becomes)))
    ]

    new-Ready :
        (p id : ℕ) (u w : World env)
        → IsRib limit (one_extra p) u
        → env.nhop.lookup u.nhop_tbl key ≡ some p
        → env.rib.lookup u.rib pfx ≡ none
        → NewResult u w id p
        → Ready limit pfx key w id p
    new-Ready p id u w h at new r =
        let m = new-OneMore u w id p r in
        record {
          valid = IsRib-more u w id p m limit r.rib r.nhops key h at;
          free = Unrouted-more u w id p m limit r.rib r.nhops (one_extra p) h;
          one = record { low = r.low; taken = m.on; count = r.plain.count; path = r.path };
          plain = r.plain;
          at = ap (λ t. env.nhop.lookup t key) r.nhops.nhop_tbl ∙ at;
          new = ap (λ t. env.rib.lookup t pfx) r.rib ∙ new;
        }

    after_result-Inserts :
        (p : ℕ) (u : World env)
        → IsRib limit (one_extra p) u
        → SameView start u
        → env.nhop.lookup u.nhop_tbl key ≡ some p
        → env.rib.lookup u.rib pfx ≡ none
        → Returns
            (Inserts limit start pfx key)
            ((fib_res_obj_create (some p ∷ []) none rt_default >>= after_result v pfx key p) u)
    unfolding after_result
    after_result-Inserts p u h seen at new =
        let (n, live, own) = h.both.0.live key p at in
        Returns-follow _ (Inserts limit start pfx key)
          (fib_res_obj_create (some p ∷ []) none rt_default u) (after_result v pfx key p)
          (fib_res_obj_create-NewResult u p n live)
          (λ ret w c. elim c [
            | inl (full, same) ↦ rw (full, same) (undo p _ u h seen at refl)
            | inr (id, e, r) ↦ rw e (
                Returns-follow _ (Inserts limit start pfx key)
                  (rt_prefix_obj_update v pfx (negsuc 0) (pos id) w)
                  (after_update v pfx key p (pos id))
                  (rt_prefix_obj_update-Written w v pfx id p n (new-Ready p id u w h at new r).one
                    (ap (λ g. g p) r.nhops.nhops ∙ live))
                  (λ ret' w' written.
                    after_update-Inserts id p ret' w w' (new-Ready p id u w h at new r)
                      (λ k.
                        SameView-more u w id p (new-OneMore u w id p r) limit r.rib r.nhops
                          (one_extra p) h k
                        ∙ seen k)
                      written))
          ])

    pub ntb_route_nhop_insert-Inserts :
        IsRib limit no_extra start
        → env.fb.len + 1 < 2 ^ 32
        → NeighRoom v key start
        → env.rib.lookup start.rib pfx ≡ none
        → (b : ℕ) → AtMost b start.neighs
        → b + 1 ≤ limit
        → Returns (Inserts limit start pfx key) (ntb_route_nhop_insert v pfx key rt_default start)
    unfolding ntb_route_nhop_insert route_insert after_result after_update
    ntb_route_nhop_insert-Inserts h room neigh_room new b small le =
        rw (new, ntb_route_nhop_insert)
          (Returns-follow (Gained limit start key) (Inserts limit start pfx key)
            (nhop_obj_create v key start) _
            (nhop_obj_create-Gained v limit key start h room neigh_room b small le)
            (λ (ret, o) u c. step ret o u c))
      where
        rest : ℤ → Option ℕ → M env ℤ
        rest ret o = if is_neg ret then pure ret else do
          id_new ← fib_res_obj_create (o ∷ []) none rt_default
          if is_neg id_new then (nhop_obj_delete v o >>= λ _. pure id_new) else do
            ret ← rt_prefix_obj_update v pfx (negsuc 0) id_new
            if is_neg ret
                then (fib_res_obj_delete id_new >>= λ _. nhop_obj_delete v o >>= λ _. pure ret)
                else pure ret

        step :
            (ret : ℤ) (o : Option ℕ) (u : World env)
            → Gained limit start key (ret, o) u
            → Returns (Inserts limit start pfx key) (rest ret o u)
        step (negsuc r) o u (h', kept) = (h', inl (refl, kept.seen))
        step (pos r) none u c = absurd c
        step (pos r) (some p) u (h', kept, at) =
            after_result-Inserts p u h' kept.seen at (ap (λ t. env.rib.lookup t pfx) kept.rib ∙ new)
