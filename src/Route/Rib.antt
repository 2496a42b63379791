-- ===== src/Route/Rib.antt =====
-- agent/route.c: the routes as a whole. The invariant: each prefix of the RIB leads to a result of its
-- own, each result to one next hop, and the count of a next hop is the number of the results that
-- lead to it.
pub mod Hops
pub mod Same
pub mod Uses
pub mod Release
pub mod Results
pub mod Insert
pub mod Existing
pub mod Delete
pub mod Refine
pub mod History
use tao_p4code.Base.{
  ℕ, ℤ, pos, negsuc, ◌+◌, ◌<◌, ◌≤◌, ◌≡◌, ◌≢◌, sym, ap, ◌∙◌, inl, inr, arith, ==_refl, Bool, true,
  false, ◌&&◌, Option, none, some, List, [], ◌∷◌, ◌==◌, if◌then◌else◌, Option-cases,
}
use tao_p4code.Base.Count.{count_below, count_below-le}
use tao_p4code.Types.{RibKey, NhopEncapData, FibNhop}
use tao_p4code.World.{Env, World}
use tao_p4code.Neigh.Bound.{AtMost, AtMost-mono}
use tao_p4code.Route.Nhop.{nhop_key}
use tao_p4code.Route.Nhop.Safety.{BothSound}
use tao_p4code.Route.Result.Single.{IsPlain}

-- The array of paths holds `p` and nothing else.
abbrev pub path_is : List (Option ℕ) → ℕ → Bool
path_is (some q ∷ []) p = q == p
path_is _ p = false

pub path_is-path : (l : List (Option ℕ)) (p : ℕ) → path_is l p ≡ true → l ≡ some p ∷ []
path_is-path [] p e = absurd (cc)
path_is-path (none ∷ r) p e = absurd (cc)
path_is-path (some q ∷ []) p e = ap (λ x. some x ∷ []) (ground (arith, e))
path_is-path (some q ∷ r ∷ rs) p e = absurd (cc)

abbrev pub no_extra : ℕ → ℕ
no_extra p = 0

-- One use of `p` that no result has.
abbrev pub one_extra : ℕ → ℕ → ℕ
one_extra p q = if q == p then 1 else 0

module _ {env : Env} where
  -- The result `i` is in use and leads to `p`.
  abbrev pub holder : World env → ℕ → ℕ → Bool
  holder w p i = env.fb.used w.fb i && path_is (w.fib_res i).mpath p

  pub holder-inv :
      (w : World env) (p i : ℕ)
      → holder w p i ≡ true
      → (env.fb.used w.fb i ≡ true) × ((w.fib_res i).mpath ≡ some p ∷ [])
  holder-inv w p i e = (ground (arith, e), path_is-path (w.fib_res i).mpath p (ground (arith, e)))

  pub holder-true :
      (w : World env) (p i : ℕ)
      → env.fb.used w.fb i ≡ true
      → (w.fib_res i).mpath ≡ some p ∷ []
      → holder w p i ≡ true
  holder-true w p i taken path = rw (taken, path) (==_refl p)

  -- The number of the results that lead to `p`.
  abbrev pub uses : World env → ℕ → ℕ
  uses w p = count_below (holder w p) env.fb.len

  pub uses_le : (w : World env) (p : ℕ) → uses w p ≤ env.fb.len
  uses_le w p = count_below-le (holder w p) env.fb.len

  -- The result that a prefix leads to: in use, of one path, in a route of the type `RT_DEFAULT`.
  pub record RouteAt (w : World env) (z : ℤ) : Type 0 where
    pub id : ℕ
    pub at : ℕ
    pub is : z ≡ pos id
    pub low : id < env.fb.len
    pub taken : env.fb.used w.fb id ≡ true
    pub path : (w.fib_res id).mpath ≡ some at ∷ []
    pub plain : IsPlain (w.fib_res id)

  -- The invariant of the routes. No counter of a neighbour is larger than `limit`; `extra` counts the uses of next hops beside those by results.
  pub record IsRib (limit : ℕ) (extra : ℕ → ℕ) (w : World env) : Type 0 where
    pub both : BothSound w
    pub most : AtMost limit w.neighs
    pub held :
        (p i : ℕ)
        → i < env.fb.len
        → env.fb.used w.fb i ≡ true
        → (w.fib_res i).mpath ≡ some p ∷ []
        → (key : NhopEncapData) × (env.nhop.lookup w.nhop_tbl key ≡ some p)
    pub counted :
        (key : NhopEncapData) (p : ℕ) (n : FibNhop)
        → env.nhop.lookup w.nhop_tbl key ≡ some p
        → w.nhops p ≡ some n
        → n.ref_count ≡ uses w p + extra p
    pub routed : (k : RibKey) (z : ℤ) → env.rib.lookup w.rib k ≡ some z → RouteAt w z
    pub apart :
        (j k : RibKey) (id : ℕ)
        → env.rib.lookup w.rib j ≡ some (pos id)
        → env.rib.lookup w.rib k ≡ some (pos id)
        → j ≡ k

  -- The gateway and the tunnel that a prefix leads to, by the RIB; the FIBs are not looked at.
  abbrev pub path_key : World env → List (Option ℕ) → Option NhopEncapData
  path_key w (some p ∷ []) = elim (w.nhops p) [ none ↦ none | some n ↦ some (nhop_key n) ]
  path_key w _ = none

  abbrev pub res_key : World env → ℤ → Option NhopEncapData
  res_key w (pos id) = path_key w (w.fib_res id).mpath
  res_key w (negsuc n) = none

  abbrev pub route_of : World env → Option ℤ → Option NhopEncapData
  route_of w none = none
  route_of w (some z) = res_key w z

  unfoldable pub view : World env → RibKey → Option NhopEncapData
  view w k = route_of w (env.rib.lookup w.rib k)

  pub view-none : (w : World env) (k : RibKey) → env.rib.lookup w.rib k ≡ none → view w k ≡ none
  unfolding view
  view-none w k e = ap (route_of w) e

  pub view-key :
      (w : World env) (k : RibKey) (id p : ℕ) (key : NhopEncapData)
      → BothSound w
      → env.rib.lookup w.rib k ≡ some (pos id)
      → (w.fib_res id).mpath ≡ some p ∷ []
      → env.nhop.lookup w.nhop_tbl key ≡ some p
      → view w k ≡ some key
  unfolding view
  view-key w k id p key s e path at =
      let (n, live, own) = s.0.live key p at in
      ap (route_of w) e
      ∙ ap (path_key w) path
      ∙ ap {A = Option FibNhop} (λ o. elim o [ none ↦ none | some n ↦ some (nhop_key n) ]) live
      ∙ ap some own.0

  -- The routes of two states are the same.
  abbrev pub SameView : World env → World env → Type 0
  SameView w u = (k : RibKey) → view u k ≡ view w k

  -- The prefix has the route `route`, and the other prefixes keep theirs.
  abbrev pub Becomes : World env → RibKey → Option NhopEncapData → World env → Type 0
  Becomes w pfx route u = (view u pfx ≡ route) × ((k : RibKey) → k ≢ pfx → view u k ≡ view w k)

  -- The result and the next hop of a prefix, where it has one.
  pub record RoutePath (w : World env) (k : RibKey) : Type 0 where
    pub id : ℕ
    pub at : ℕ
    pub key : NhopEncapData
    pub entry : env.rib.lookup w.rib k ≡ some (pos id)
    pub low : id < env.fb.len
    pub taken : env.fb.used w.fb id ≡ true
    pub path : (w.fib_res id).mpath ≡ some at ∷ []
    pub plain : IsPlain (w.fib_res id)
    pub hop : env.nhop.lookup w.nhop_tbl key ≡ some at
    pub seen : view w k ≡ some key

  pub IsRib-RoutePath :
      (limit : ℕ) (extra : ℕ → ℕ) (w : World env) (k : RibKey) (z : ℤ)
      → IsRib limit extra w
      → env.rib.lookup w.rib k ≡ some z
      → RoutePath w k
  IsRib-RoutePath limit extra w k z h e =
      let r = h.routed k z e in
      let (key, hop) = h.held r.at r.id r.low r.taken r.path in
      let entry : env.rib.lookup w.rib k ≡ some (pos r.id) = e ∙ ap some r.is in
      record {
        id = r.id;
        at = r.at;
        key = key;
        entry = entry;
        low = r.low;
        taken = r.taken;
        path = r.path;
        plain = r.plain;
        hop = hop;
        seen = view-key w k r.id r.at key h.both entry r.path hop;
      }

  -- A prefix keeps its route where its entry, its result and the key of its next hop stay.
  pub view-keep :
      (limit : ℕ) (extra : ℕ → ℕ) (w u : World env) (k : RibKey)
      → IsRib limit extra w
      → BothSound u
      → env.rib.lookup u.rib k ≡ env.rib.lookup w.rib k
      → ((r : RoutePath w k)
          → ((u.fib_res r.id).mpath ≡ some r.at ∷ [])
            × (env.nhop.lookup u.nhop_tbl r.key ≡ some r.at))
      → view u k ≡ view w k
  view-keep limit extra w u k h s same keep = elim (Option-cases (env.rib.lookup w.rib k)) [
    | inl e ↦ view-none u k (same ∙ e) ∙ sym (view-none w k e)
    | inr (z, e) ↦
        let r = IsRib-RoutePath limit extra w k z h e in
        let (path, hop) = keep r in
        view-key u k r.id r.at r.key s (same ∙ r.entry) path hop ∙ sym r.seen
  ]

  pub IsRib-mono :
      (b limit : ℕ) (extra : ℕ → ℕ) (w : World env)
      → b ≤ limit
      → IsRib b extra w
      → IsRib limit extra w
  IsRib-mono b limit extra w le h = record {
    both = h.both;
    most = AtMost-mono b limit w.neighs le h.most;
    held = h.held;
    counted = h.counted;
    routed = h.routed;
    apart = h.apart;
  }
