-- ===== src/Route/Rib/Same.antt =====
-- The invariant of the routes where the next hops and the results stay: the RIB alone may change.
use tao_p4code.Base.{ℕ, ℤ, pos, ◌+◌, ◌≡◌, sym, ap, ◌∙◌, some, subst, ◌&&◌}
use tao_p4code.Base.Count.{count_below}
use tao_p4code.Types.{RibKey, NhopEncapData}
use tao_p4code.World.{Env, World}
use tao_p4code.Neigh.Bound.{AtMost}
use tao_p4code.Route.Nhop.Safety.{BothSound}
use tao_p4code.Route.Result.Single.{IsPlain}
use tao_p4code.Route.Rib.{path_is, uses, IsRib, RouteAt, view, view-keep}

module _ {env : Env} where
  pub record SameHops (limit : ℕ) (w u : World env) : Type 0 where
    pub both : BothSound u
    pub most : AtMost limit u.neighs
    pub keys : (k : NhopEncapData) → env.nhop.lookup u.nhop_tbl k ≡ env.nhop.lookup w.nhop_tbl k
    pub objects : (q : ℕ) → u.nhops q ≡ w.nhops q
    pub fb : u.fb ≡ w.fb
    pub fib_res : u.fib_res ≡ w.fib_res

  module _ (limit : ℕ) (extra : ℕ → ℕ) (w u : World env) (h : IsRib limit extra w)
      (same : SameHops limit w u) where
    uses-same : (q : ℕ) → uses u q ≡ uses w q
    uses-same q =
        ap (λ fb. count_below (λ i. env.fb.used fb i && path_is (u.fib_res i).mpath q) env.fb.len)
          same.fb
        ∙ ap (λ g. count_below (λ i. env.fb.used w.fb i && path_is (g i).mpath q) env.fb.len)
            same.fib_res

    pub RouteAt-same : (z : ℤ) → RouteAt w z → RouteAt u z
    RouteAt-same z r = record {
      id = r.id;
      at = r.at;
      is = r.is;
      low = r.low;
      taken = ap (λ a. env.fb.used a r.id) same.fb ∙ r.taken;
      path = ap (λ g. (g r.id).mpath) same.fib_res ∙ r.path;
      plain = subst (λ x. IsPlain x) (ap (λ g. g r.id) (sym same.fib_res)) r.plain;
    }

    -- A RIB whose entries lead to different results in use.
    pub IsRib-same :
        ((k : RibKey) (z : ℤ) → env.rib.lookup u.rib k ≡ some z → RouteAt w z)
        → ((j k : RibKey) (id : ℕ)
            → env.rib.lookup u.rib j ≡ some (pos id)
            → env.rib.lookup u.rib k ≡ some (pos id)
            → j ≡ k)
        → IsRib limit extra u
    IsRib-same routed apart = record {
      both = same.both;
      most = same.most;
      held = λ q i low taken path.
          let (k, at) =
            h.held q i low (ap (λ a. env.fb.used a i) (sym same.fb) ∙ taken)
              (ap (λ g. (g i).mpath) (sym same.fib_res) ∙ path) in
          (k, same.keys k ∙ at);
      counted = λ k q n at live.
          h.counted k q n (sym (same.keys k) ∙ at) (sym (same.objects q) ∙ live)
          ∙ ap (λ x. x + extra q) (sym (uses-same q));
      routed = λ k z e. RouteAt-same z (routed k z e);
      apart = apart;
    }

    -- The routes of the prefixes whose entries stay.
    pub view-same :
        (k : RibKey) → env.rib.lookup u.rib k ≡ env.rib.lookup w.rib k → view u k ≡ view w k
    view-same k e =
        view-keep limit extra w u k h same.both e
          (λ r. (ap (λ g. (g r.id).mpath) same.fib_res ∙ r.path, same.keys r.key ∙ r.hop))
