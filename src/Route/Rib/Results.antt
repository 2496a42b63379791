-- ===== src/Route/Rib/Results.antt =====
-- The invariant of the routes when a result is taken for a next hop, and when it is freed.
use native.Mathlib.Decide.{ℕ_discrete}
use tao_p4code.Base.{
  ℕ, ℤ, pos, ◌+◌, ◌<◌, ◌≡◌, ◌≢◌, refl, sym, ap, ◌∙◌, true, false, Option, some, List, [], ◌∷◌,
  arith, ==_refl, subst, ◌&&◌,
}
use tao_p4code.Base.Count.{count_below-add, count_below-ext}
use tao_p4code.Types.{RibKey, NhopEncapData, FibRes}
use tao_p4code.World.{Env, World}
use tao_p4code.Neigh.Bound.{AtMost}
use tao_p4code.Route.Nhop.Safety.{BothSound}
use tao_p4code.Route.Result.Single.{SameNhops, OnePath, IsPlain, NewResult}
use tao_p4code.Route.Result.{fib_res_id_free}
use tao_p4code.Route.Prefix.Write.{SameResults}
use tao_p4code.Route.Rib.Same.{SameHops}
use tao_p4code.Route.Update.Fresh.{both-same}
use tao_p4code.Route.Rib.{
  path_is, no_extra, one_extra, holder, holder-true, uses, IsRib, RouteAt, SameView, view-keep,
}

pub first_path : (p q : ℕ) → ◌≡◌ {A = List (Option ℕ)} (some p ∷ []) (some q ∷ []) → p ≡ q
first_path p q e = cc

pos-injective : (m n : ℕ) → ◌≡◌ {A = ℤ} (pos m) (pos n) → m ≡ n
pos-injective m n e = cc

module _ {env : Env} where
  -- No prefix leads to the result.
  abbrev pub Unrouted : World env → ℕ → Type 0
  Unrouted w id = (k : RibKey) → env.rib.lookup w.rib k ≡ some (pos id) → ⊥

  -- The results in use of `b` are those of `s` and `id`, which leads to `p`.
  pub record OneMore (s b : World env) (id p : ℕ) : Type 0 where
    pub low : id < env.fb.len
    pub off : env.fb.used s.fb id ≡ false
    pub on : env.fb.used b.fb id ≡ true
    pub path : (b.fib_res id).mpath ≡ some p ∷ []
    pub used : (j : ℕ) → j ≢ id → env.fb.used b.fb j ≡ env.fb.used s.fb j
    pub others : (j : ℕ) → j ≢ id → b.fib_res j ≡ s.fib_res j

  module _ (s b : World env) (id p : ℕ) (m : OneMore s b id p) where
    holder_off : (q : ℕ) → holder s q id ≡ false
    holder_off q = let e = m.off in rw e refl

    holder_other : (q : ℕ) → q ≢ p → holder b q id ≡ false
    holder_other q ne = let e = m.on in let f = m.path in rw (e, f) (ground (arith, ne))

    holder_ne : (q j : ℕ) → j ≢ id → holder b q j ≡ holder s q j
    holder_ne q j ne =
        ap (λ x. x && path_is (b.fib_res j).mpath q) (m.used j ne)
        ∙ ap (λ (x : FibRes). env.fb.used s.fb j && path_is x.mpath q) (m.others j ne)

    -- One use more of `p`.
    uses-OneMore : (q : ℕ) → uses b q ≡ uses s q + one_extra p q
    uses-OneMore q = elim (ℕ_discrete q p) [
      | yes e ↦
          let path' : (b.fib_res id).mpath ≡ some q ∷ [] = m.path ∙ ap (λ x. some x ∷ []) (sym e) in
          count_below-add (holder s q) (holder b q) env.fb.len id m.low (holder_off q)
            (holder-true b q id m.on path') (λ i ne. holder_ne q i ne)
          ∙ ground (arith, e)
      | no ne ↦
          count_below-ext (holder s q) (holder b q) env.fb.len (λ i low. elim (ℕ_discrete i id) [
            | yes e ↦ rw e (holder_other q ne ∙ sym (holder_off q))
            | no other ↦ holder_ne q i other
          ])
          ∙ ground (arith, ne)
    ]

    -- A result in use of `s` is another one.
    ne_new : (j : ℕ) → env.fb.used s.fb j ≡ true → j ≢ id
    ne_new j on e =
        let off = m.off in
        let on' : env.fb.used s.fb id ≡ true = subst (λ x. env.fb.used s.fb x ≡ true) e on in cc

    up : (z : ℤ) → RouteAt s z → RouteAt b z
    up z r =
        let ne = ne_new r.id r.taken in
        record {
          id = r.id;
          at = r.at;
          is = r.is;
          low = r.low;
          taken = m.used r.id ne ∙ r.taken;
          path = ap (λ (x : FibRes). x.mpath) (m.others r.id ne) ∙ r.path;
          plain = subst (λ x. IsPlain x) (sym (m.others r.id ne)) r.plain;
        }

    down : (z : ℤ) (r : RouteAt b z) → r.id ≢ id → RouteAt s z
    down z r ne = record {
      id = r.id;
      at = r.at;
      is = r.is;
      low = r.low;
      taken = sym (m.used r.id ne) ∙ r.taken;
      path = ap (λ (x : FibRes). x.mpath) (sym (m.others r.id ne)) ∙ r.path;
      plain = subst (λ x. IsPlain x) (m.others r.id ne) r.plain;
    }

    module _ (limit : ℕ) (rib : b.rib ≡ s.rib) (same : SameNhops s b) where
      back : BothSound b → BothSound s
      back h =
          both-same b s
            (record {
              nhop_tbl = sym same.nhop_tbl;
              nhops = sym same.nhops;
              neigh_tbl = sym same.neigh_tbl;
              neighs = sym same.neighs;
            })
            h

      entry : (k : RibKey) → env.rib.lookup b.rib k ≡ env.rib.lookup s.rib k
      entry k = ap (λ t. env.rib.lookup t k) rib

      hop : (k : NhopEncapData) → env.nhop.lookup b.nhop_tbl k ≡ env.nhop.lookup s.nhop_tbl k
      hop k = ap (λ t. env.nhop.lookup t k) same.nhop_tbl

      -- The use that no result had is now that of the new result.
      pub IsRib-more :
          (key : NhopEncapData)
          → IsRib limit (one_extra p) s
          → env.nhop.lookup s.nhop_tbl key ≡ some p
          → IsRib limit no_extra b
      IsRib-more key h at = record {
        both = both-same s b same h.both;
        most = subst (AtMost limit) (sym same.neighs) h.most;
        held = λ q i low taken path. elim (ℕ_discrete i id) [
          | yes e ↦
              let e' = m.path in
              let q_p : p ≡ q =
                first_path p q
                  (sym m.path ∙ subst (λ x. (b.fib_res x).mpath ≡ some q ∷ []) e path) in
              (key, hop key ∙ at ∙ ap some q_p)
          | no ne ↦
              let (k, at') =
                h.held q i low (sym (m.used i ne) ∙ taken)
                  (ap (λ (x : FibRes). x.mpath) (sym (m.others i ne)) ∙ path) in
              (k, hop k ∙ at')
        ];
        counted = λ k q n at' live.
            h.counted k q n (sym (hop k) ∙ at') (ap (λ g. g q) (sym same.nhops) ∙ live)
            ∙ sym (uses-OneMore q)
            ∙ omega arith;
        routed = λ k z e. up z (h.routed k z (sym (entry k) ∙ e));
        apart = λ j k i e f. h.apart j k i (sym (entry j) ∙ e) (sym (entry k) ∙ f);
      }

      -- No prefix leads to the new result.
      pub Unrouted-more : (extra : ℕ → ℕ) → IsRib limit extra s → Unrouted b id
      Unrouted-more extra h k e =
          let r = h.routed k (pos id) (sym (entry k) ∙ e) in
          ne_new r.id r.taken (sym (pos-injective id r.id r.is))

      pub SameView-more : (extra : ℕ → ℕ) → IsRib limit extra s → SameView s b
      SameView-more extra h k =
          view-keep limit extra s b k h (both-same s b same h.both) (entry k) (λ r. (
            ap (λ (x : FibRes). x.mpath) (m.others r.id (ne_new r.id r.taken)) ∙ r.path,
            hop r.key ∙ r.hop,
          ))

      -- The use of the result that goes is one that no result has.
      pub IsRib-less : IsRib limit no_extra b → Unrouted b id → IsRib limit (one_extra p) s
      IsRib-less h free = record {
        both = back h.both;
        most = subst (AtMost limit) same.neighs h.most;
        held = λ q i low taken path.
            let ne = ne_new i taken in
            let (k, at') =
              h.held q i low (m.used i ne ∙ taken)
                (ap (λ (x : FibRes). x.mpath) (m.others i ne) ∙ path) in
            (k, sym (hop k) ∙ at');
        counted = λ k q n at' live.
            h.counted k q n (hop k ∙ at') (ap (λ g. g q) same.nhops ∙ live)
            ∙ omega (arith, uses-OneMore q);
        routed = λ k z e.
            let r = h.routed k z (entry k ∙ e) in
            down z r (λ i. free k (entry k ∙ e ∙ ap some (r.is ∙ ap pos i)));
        apart = λ j k i e f. h.apart j k i (entry j ∙ e) (entry k ∙ f);
      }

      pub SameView-less : IsRib limit no_extra b → Unrouted b id → SameView b s
      SameView-less h free k = view-keep limit no_extra b s k h (back h.both) (sym (entry k)) (λ r.
          let ne : r.id ≢ id = λ i. free k (r.entry ∙ ap (λ x. some (pos x)) i) in
          (ap (λ (x : FibRes). x.mpath) (sym (m.others r.id ne)) ∙ r.path, sym (hop r.key) ∙ r.hop))

  pub new-OneMore : (w u : World env) (id p : ℕ) → NewResult w u id p → OneMore w u id p
  new-OneMore w u id p n = record {
    low = n.low;
    off = n.was_free;
    on = n.used id ∙ ground (arith, ==_refl id);
    path = n.path;
    used = λ j ne. n.used j ∙ ground (arith, ne);
    others = n.others;
  }

  pub freed-OneMore :
      (u : World env) (id p : ℕ) → OnePath u id p → OneMore (fib_res_id_free (pos id) u) u id p
  unfolding fib_res_id_free
  freed-OneMore u id p one = record {
    low = one.low;
    off = env.fb.used-set_free u.fb id id ∙ ground (arith, ==_refl id);
    on = one.taken;
    path = one.path;
    used = λ j ne. sym (env.fb.used-set_free u.fb id j ∙ ground (arith, ne));
    others = λ j ne. refl;
  }

  pub SameResults-SameHops :
      (limit : ℕ) (w u : World env)
      → BothSound w
      → AtMost limit w.neighs
      → SameResults w u
      → SameHops limit w u
  SameResults-SameHops limit w u s most same = record {
    both = both-same w u same.nhops s;
    most = subst (AtMost limit) (sym same.nhops.neighs) most;
    keys = λ k. ap (λ t. env.nhop.lookup t k) same.nhops.nhop_tbl;
    objects = λ q. ap (λ g. g q) same.nhops.nhops;
    fb = same.fb;
    fib_res = same.fib_res;
  }
