-- ===== src/Route/Rib/Delete.antt =====
-- A route is deleted, by ntb_route_delete or with its next hop by ntb_route_nhop_delete, in terms of
-- the routes of all prefixes.

use tao_p4code.Base.{ℕ, ℤ, pos, ◌≡◌, ◌≢◌, refl, sym, ap, ◌∙◌, none, some, subst}
use tao_p4code.Types.{RibKey, FibRes}
use tao_p4code.World.{
  Env, World, Run, fault, follow, M, ok, pure, ◌>>=◌, ◌>>◌, Returns, Returns-follow, Returns-mono,
  bind,
}
use tao_p4code.Route.Nhop.{nhop_obj_delete}
use tao_p4code.Route.Result.{mpath_read, fib_res_get, fib_res_obj_delete, fib_res_id_free}
use tao_p4code.Route.Result.Single.{SameNhops, OnePath}
use tao_p4code.Route.Prefix.{rt_prefix_obj_delete}
use tao_p4code.Route.Prefix.Write.{Erased, get-eq, rt_prefix_obj_delete-Erased}
use tao_p4code.Route.Update.{run, delete_last, nhops_delete, ntb_route_delete}
use tao_p4code.Route.Update.Fresh.{delete-eq}
use tao_p4code.Route.Rib.{no_extra, IsRib, RoutePath, SameView, Becomes, view-none}
use tao_p4code.Route.Rib.Same.{SameHops, IsRib-same, view-same}
use tao_p4code.Route.Rib.Release.{nhop_obj_delete-Kept}
use tao_p4code.Route.Rib.Results.{
  Unrouted, OneMore, IsRib-less, SameView-less, freed-OneMore, SameResults-SameHops,
}

module _ {env : Env} where
  -- The prefix has no route, and the other prefixes keep theirs.
  abbrev pub Deleted : ℕ → World env → RibKey → ℤ → World env → Type 0
  Deleted limit w pfx ret u = (ret ≡ pos 0) × IsRib limit no_extra u × Becomes w pfx none u

  RoutePath-OnePath : (w : World env) (pfx : RibKey) (r : RoutePath w pfx) → OnePath w r.id r.at
  RoutePath-OnePath w pfx r = record {
    low = r.low;
    taken = r.taken;
    count = r.plain.count;
    path = r.path;
  }

  module _ (v limit : ℕ) (pfx : RibKey) (w : World env) (h : IsRib limit no_extra w)
      (r : RoutePath w pfx) where
    -- The state without the entry of the prefix.
    module _ (u : World env) (e : Erased w u pfx) where
      after : SameHops limit w u
      after = SameResults-SameHops limit w u h.both h.most e.same

      -- An entry that is left is one of another prefix.
      left_ne : (k : RibKey) (z : ℤ) → env.rib.lookup u.rib k ≡ some z → k ≢ pfx
      left_ne k z at eq =
          let gone = e.gone in
          let at' : env.rib.lookup u.rib pfx ≡ some z =
            subst (λ x. env.rib.lookup u.rib x ≡ some z) eq at in
          cc

      left :
          (k : RibKey) (z : ℤ) → env.rib.lookup u.rib k ≡ some z → env.rib.lookup w.rib k ≡ some z
      left k z at = sym (e.others k (left_ne k z at)) ∙ at

      erased-IsRib : IsRib limit no_extra u
      erased-IsRib =
          IsRib-same limit no_extra w u h after (λ k z at. h.routed k z (left k z at))
            (λ j k id at at'. h.apart j k id (left j (pos id) at) (left k (pos id) at'))

      erased-Unrouted : Unrouted u r.id
      erased-Unrouted k at =
          left_ne k (pos r.id) at (h.apart k pfx r.id (left k (pos r.id) at) r.entry)

      freed : World env
      unfolding fib_res_id_free
      freed = fib_res_id_free (pos r.id) u

      erased-OneMore : OneMore freed u r.id r.at
      unfolding freed
      erased-OneMore = freed-OneMore u r.id r.at (record {
        low = r.low;
        taken = ap (λ a. env.fb.used a r.id) e.same.fb ∙ r.taken;
        count = ap (λ g. (g r.id).mpath_cnt) e.same.fib_res ∙ r.plain.count;
        path = ap (λ g. (g r.id).mpath) e.same.fib_res ∙ r.path;
      })

      -- The result and the use of the next hop go.
      finish :
          Returns
            (Deleted limit w pfx)
            ((fib_res_obj_delete (pos r.id) >>= λ _. nhop_obj_delete v (some r.at)) u)
      unfolding fib_res_id_free freed
      finish =
          let same : SameNhops freed u = record {
            nhop_tbl = refl;
            nhops = refl;
            neigh_tbl = refl;
            neighs = refl;
          } in
          let m = erased-OneMore in
          let seen : SameView u freed =
            SameView-less freed u r.id r.at m limit refl same erased-IsRib erased-Unrouted in
          subst (Returns (Deleted limit w pfx))
            (sym (
              bind {w = u} (fib_res_obj_delete (pos r.id)) (λ _. nhop_obj_delete v (some r.at))
                (delete-eq v pfx r.key u r.id r.low)))
            (Returns-mono _ (Deleted limit w pfx) (nhop_obj_delete v (some r.at) freed)
              (nhop_obj_delete-Kept v limit r.key freed r.at
                (IsRib-less freed u r.id r.at m limit refl same erased-IsRib erased-Unrouted)
                (after.keys r.key ∙ r.hop))
              (λ ret x (zero_ret, h', kept). (
                zero_ret,
                h',
                (
                  kept.seen pfx ∙ seen pfx ∙ view-none u pfx e.gone,
                  λ k ne.
                      kept.seen k ∙ seen k ∙ view-same limit no_extra w u h after k (e.others k ne),
                ),
              )))

    -- The three steps that delete a route.
    pub delete_last-Deleted :
        Returns (Deleted limit w pfx) (delete_last v pfx (pos r.id) (some r.at) w)
    unfolding delete_last
    delete_last-Deleted =
        let (n, live, own) = h.both.0.live r.key r.at r.hop in
        Returns-follow (λ _ u. Erased w u pfx) (Deleted limit w pfx)
          (rt_prefix_obj_delete v pfx (pos r.id) w)
          (λ _. fib_res_obj_delete (pos r.id) >>= λ _. nhop_obj_delete v (some r.at))
          (rt_prefix_obj_delete-Erased w v pfx r.id r.at n (RoutePath-OnePath w pfx r) live)
          (λ _ u e. finish u e)

    -- The loop over the one next hop, and the result 0.
    delete_rest : FibRes → M env ℤ
    unfolding nhops_delete
    delete_rest f = do
      paths ← run (mpath_read f.mpath_cnt f.mpath)
      _ ← rt_prefix_obj_delete v pfx (pos r.id)
      _ ← fib_res_obj_delete (pos r.id)
      nhops_delete v paths
      pure (pos 0)

    Returns-zero :
        (x : Run (ℤ × World env))
        → Returns (Deleted limit w pfx) x
        → Returns (Deleted limit w pfx) (follow (follow x (λ _. pure tt)) (λ _. pure (pos 0)))
    Returns-zero (ok (a, u)) (zero_ret, rest, more) = (refl, rest, more)
    Returns-zero fault h = absurd h

    then_zero :
        (x : Run (ℤ × World env)) (n : M env ℤ)
        → Returns (Deleted limit w pfx) (follow x (λ _. n))
        → Returns (Deleted limit w pfx) (follow x (λ _. (n >>= λ _. pure tt) >>= λ _. pure (pos 0)))
    then_zero (ok (a, u)) n h = Returns-zero (n u) h
    then_zero fault n h = absurd h

    -- ntb_route_delete of a prefix that has a route.
    pub ntb_route_delete-Deleted : Returns (Deleted limit w pfx) (ntb_route_delete v pfx w)
    unfolding ntb_route_delete nhops_delete delete_rest
    ntb_route_delete-Deleted =
        let (n, live, own) = h.both.0.live r.key r.at r.hop in
        rw (r.entry, ntb_route_delete)
          (subst (Returns (Deleted limit w pfx))
            (sym (bind {w = w} (fib_res_get (pos r.id)) delete_rest (get-eq w r.id r.low)))
            (rw (r.plain.count, r.path)
              (Returns-follow (λ _ u. Erased w u pfx) (Deleted limit w pfx)
                (rt_prefix_obj_delete v pfx (pos r.id) w)
                (λ _. fib_res_obj_delete (pos r.id) >>= λ _.
                  (nhop_obj_delete v (some r.at) >>= λ _. pure tt) >>= λ _. pure (pos 0))
                (rt_prefix_obj_delete-Erased w v pfx r.id r.at n (RoutePath-OnePath w pfx r) live)
                (λ _ u e.
                  then_zero (fib_res_obj_delete (pos r.id) u) (nhop_obj_delete v (some r.at))
                    (finish u e)))))
