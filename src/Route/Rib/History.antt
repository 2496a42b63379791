-- ===== src/Route/Rib/History.antt =====
-- A history of insertions and deletions of routes, in any VRFs, from a state of the agent on.
use tao_p4code.Base.{ℕ, ℤ, suc, ◌+◌, ◌^◌, ◌<◌, ◌≡◌, refl, List, [], ◌∷◌, arith, length}
use tao_p4code.World.{Env, World, M, pure, ◌>>=◌, Returns, Returns-follow}
use tao_p4code.Route.Rib.{no_extra, IsRib, IsRib-mono, view}
use tao_p4code.Route.Rib.Refine.{Routes, RouteOp, Allowed, Implements, run_op, run_op-Implements}

-- The operations, in this order, may return the results and lead from the routes `m` to `n`.
abbrev pub History : List (ℕ × RouteOp) → Routes → List ℤ → Routes → Type 0
History [] m [] n = n ≡ m
History [] m (ret ∷ rets) n = ⊥
History ((v, op) ∷ ops) m [] n = ⊥
History ((v, op) ∷ ops) m (ret ∷ rets) n =
    (m' : Routes) × Allowed op m (ret, m') × History ops m' rets n

module _ {env : Env} where
  -- The operations one after the other, and their results.
  pub run_ops : List (ℕ × RouteOp) → M env (List ℤ)
  run_ops [] = pure []
  run_ops ((v, op) ∷ ops) = do ret ← run_op v op; rets ← run_ops ops; pure (ret ∷ rets)

  -- Take a state in which the invariant of the routes holds, with no neighbour counter above b,
  -- and any list of operations, each in some VRF: ntb_route_nhop_insert or ntb_route_nhop_delete
  -- of a route of type RT_DEFAULT, or ntb_route_delete. Where the array of results has fewer
  -- than 2 ^ 32 - 1 elements and b plus the number of operations is less than 2 ^ 32, the
  -- operations, one after the other, all return. The invariant holds again, no neighbour counter
  -- is above b plus the number of operations, and the results and the routes in the RIB at the
  -- end are those of a history of the abstract operations: on a map from prefixes to next hops
  -- an insertion enters a prefix that has no route, or fails with a negative result and leaves
  -- the map, and is refused with NTB_ROUTE_NEXTHOP_ECMP_NOSPACE where the prefix has a route; a
  -- deletion by next hop takes out the route that has just that next hop, and returns 0 in any
  -- case; a deletion of a route takes it out, and returns NTB_ROUTE_PREFIX_NOT_FOUND where there
  -- is none.
  pub run_ops-History :
      (ops : List (ℕ × RouteOp)) (b : ℕ) (w : World env)
      → IsRib b no_extra w
      → env.fb.len + 1 < 2 ^ 32
      → b + length ops < 2 ^ 32
      → Returns
          (λ rets u. IsRib (b + length ops) no_extra u × History ops (view w) rets (view u))
          (run_ops ops w)
  unfolding run_ops
  run_ops-History [] b w h room small = (IsRib-mono b (b + 0) no_extra w (omega arith) h, refl)
  run_ops-History ((v, op) ∷ ops) b w h room small =
      Returns-follow (Implements (b + 1) op w) _ (run_op v op w)
        (λ ret. run_ops ops >>= λ rets. pure (ret ∷ rets))
        (run_op-Implements v (b + 1) w (IsRib-mono b (b + 1) no_extra w (omega arith) h) op room b
          h.most (omega arith) (omega arith))
        (λ ret u (h', fits).
          Returns-follow _ _ (run_ops ops u) (λ rets. pure (ret ∷ rets))
            (run_ops-History ops (b + 1) u h' room (omega arith))
            (λ rets x (h'', rest). (
              IsRib-mono (b + 1 + length ops) (b + suc (length ops)) no_extra x (omega arith) h'',
              (view u, fits, rest),
            )))
