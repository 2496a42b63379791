-- ===== src/Route/Rib/Release.antt =====
-- agent/route.c: nhop_obj_delete and the invariant of the routes.
use mathlib.Core.Option.{some-injective}
use tao_p4code.Base.{ℕ, pos, suc, zero, ◌≡◌, refl, sym, ap, ◌∙◌, some, arith, ==_refl, subst}
use tao_p4code.Base.Count.{count_below-pos}
use tao_p4code.Types.{NhopEncapData}
use tao_p4code.World.{Env, World, Returns, Returns-mono, Returns-and}
use tao_p4code.Route.Nhop.{nhop_obj_delete}
use tao_p4code.Route.Nhop.Safety.{BothSound}
use tao_p4code.Route.Nhop.Delete.{nhop_obj_delete-IsSound}
use tao_p4code.Route.Nhop.Fewer.{Fewer, nhop_obj_delete-Fewer}
use tao_p4code.Route.Rib.{no_extra, one_extra, holder, holder-true, uses, IsRib}
use tao_p4code.Route.Rib.Hops.{Moved, IsRib-Moved}
use tao_p4code.Route.Rib.Uses.{one_extra_ne, Kept, Kept-Moved}

module _ {env : Env} where
  module _ (v limit : ℕ) (key : NhopEncapData) (w : World env) where
    -- What nhop_obj_delete leaves: the object with the uses by results, or no object where there are none.
    lost :
        (p count : ℕ) (u : World env)
        → (h : IsRib limit (one_extra p) w) → env.nhop.lookup w.nhop_tbl key ≡ some p
        → uses w p ≡ count
        → Fewer v limit key w (h.both.1, h.most) p (suc count) u
        → BothSound u
        → Moved limit (one_extra p) no_extra w u key p
    lost p zero u h at none_left gone s = record {
      near = gone.near;
      both = s;
      old_at = λ q at'. cc;
      new_at = λ q at'. let empty = gone.key_gone in cc;
      old_key = λ k at'. h.both.0.apart k key p at' at;
      stays = λ i low taken path. absurd (
          omega (
            arith,
            none_left,
            count_below-pos (holder w p) env.fb.len i low (holder-true w p i taken path),
          ));
      count = λ n at' live. let empty = gone.key_gone in absurd (cc);
      rest = λ q ne. sym (one_extra_ne p q ne);
    }
    lost p (suc count) u h at left has s =
        let (n, live, e) = has.object in
        record {
          near = has.near;
          both = s;
          old_at = λ q at'. cc;
          new_at = λ q at'. let at'' = has.key_at in cc;
          old_key = λ k at'. h.both.0.apart k key p at' at;
          stays = λ i low taken path. has.key_at;
          count = λ m at' live'.
              ap (λ x. x.ref_count) (some-injective m n (sym live' ∙ live))
              ∙ e
              ∙ sym left
              ∙ omega arith;
          rest = λ q ne. sym (one_extra_ne p q ne);
        }

    -- Where the count of each next hop is the number of results that lead to it, but for one use
    -- more of the next hop p, and the rest of the invariant of the routes holds, nhop_obj_delete
    -- of p returns 0 and takes back that use, so that the invariant holds in full; the RIB, the
    -- results and the routes of all prefixes stay as they were.
    pub nhop_obj_delete-Kept :
        (p : ℕ)
        → IsRib limit (one_extra p) w
        → env.nhop.lookup w.nhop_tbl key ≡ some p
        → Returns
            (λ ret u. (ret ≡ pos 0) × IsRib limit no_extra u × Kept w u)
            (nhop_obj_delete v (some p) w)
    nhop_obj_delete-Kept p h at =
        let (n, live, (own, used, small)) = h.both.0.live key p at in
        let more : n.ref_count ≡ suc (uses w p) =
          h.counted key p n at live ∙ ground (arith, ==_refl p) in
        Returns-mono _ _ (nhop_obj_delete v (some p) w)
          (Returns-and _ _ (nhop_obj_delete v (some p) w)
            (nhop_obj_delete-IsSound v key p w h.both.0 h.both.1 at)
            (nhop_obj_delete-Fewer v limit key w (h.both.1, h.most) p n at live own used small))
          (λ ret u ((zero_ret, s), (_, fewer)).
            let m =
              lost p (uses w p) u h at refl
                (subst (λ c. Fewer v limit key w (h.both.1, h.most) p c u) more fewer) s in
            (
              zero_ret,
              IsRib-Moved limit (one_extra p) no_extra w u key p h m,
              Kept-Moved limit (one_extra p) no_extra w u key p h m,
            ))
