-- ===== src/Route/Rib/Refine.antt =====
-- agent/route.c: the routes as a map from prefixes to next hops, and ntb_route_nhop_insert,
-- ntb_route_nhop_delete and ntb_route_delete as operations on such a map.
use mathlib.Core.Logic.{ite, if_pos, if_neg}
use mathlib.Core.Path.{fun_ext}
use tao_p4code.Base.{
  ℕ, ℤ, pos, ◌+◌, ◌≤◌, ◌^◌, ◌<◌, ◌≡◌, ◌⊎◌, sym, ap, ◌∙◌, inl, inr, true, Option, none, some, arith,
  is_neg, Option-cases, subst,
}
use tao_p4code.Types.{RibKey, NhopEncapData, rt_default}
use tao_p4code.Errno.{ntb_err_code, ntb_route_nexthop_ecmp_nospace, ntb_route_prefix_not_found}
use tao_p4code.World.{Env, World, M, Run, Returns, Returns-mono}
use tao_p4code.Neigh.Bound.{AtMost}
use tao_p4code.Route.Nhop.Safety.{NhopKey-discrete}
use tao_p4code.Route.Prefix.Write.{RibKey-discrete}
use tao_p4code.Route.Update.{ntb_route_nhop_insert, ntb_route_nhop_delete, ntb_route_delete}
use tao_p4code.Route.Rib.{no_extra, IsRib, IsRib-RoutePath, RoutePath, Becomes, view, view-none}
use tao_p4code.Route.Rib.Insert.{Inserts, ntb_route_nhop_insert-Inserts}
use tao_p4code.Route.Rib.Existing.{
  ntb_route_nhop_insert-existing, ntb_route_nhop_delete-own, ntb_route_nhop_delete-other,
  ntb_route_nhop_delete-new, ntb_route_delete-new,
}
use tao_p4code.Route.Rib.Delete.{Deleted, delete_last-Deleted, ntb_route_delete-Deleted}

-- The routes of a VRF's prefixes, without the representation: each prefix has a next hop or none.
abbrev pub Routes : Type 0
Routes = RibKey → Option NhopEncapData

abbrev pub set_route : Routes → RibKey → Option NhopEncapData → Routes
set_route m pfx route k = ite (RibKey-discrete k pfx) route (m k)

-- An operation on the routes of type `RT_DEFAULT`.
pub data RouteOp : Type 0 where
  nhop_insert nhop_delete : (pfx : RibKey) → (key : NhopEncapData) → RouteOp
  route_delete : (pfx : RibKey) → RouteOp

-- What an operation returns, and what it does to the routes.
abbrev pub insert_spec : Routes → RibKey → NhopEncapData → Option NhopEncapData → ℤ × Routes
insert_spec m pfx key none = (pos 0, set_route m pfx (some key))
insert_spec m pfx key (some old) = (ntb_err_code ntb_route_nexthop_ecmp_nospace, m)

abbrev pub nhop_delete_spec : Routes → RibKey → NhopEncapData → Option NhopEncapData → ℤ × Routes
nhop_delete_spec m pfx key none = (pos 0, m)
nhop_delete_spec m pfx key (some old) =
    (pos 0, ite (NhopKey-discrete key old) (set_route m pfx none) m)

abbrev pub delete_spec : Routes → RibKey → Option NhopEncapData → ℤ × Routes
delete_spec m pfx none = (ntb_err_code ntb_route_prefix_not_found, m)
delete_spec m pfx (some old) = (pos 0, set_route m pfx none)

abbrev pub spec : RouteOp → Routes → ℤ × Routes
spec (nhop_insert pfx key) m = insert_spec m pfx key (m pfx)
spec (nhop_delete pfx key) m = nhop_delete_spec m pfx key (m pfx)
spec (route_delete pfx) m = delete_spec m pfx (m pfx)

-- An insertion at a prefix without a route may also fail, for want of memory or of space in a table.
abbrev pub Allowed : RouteOp → Routes → ℤ × Routes → Type 0
Allowed (nhop_insert pfx key) m (ret, n) =
    ((ret, n) ≡ spec (nhop_insert pfx key) m) ⊎ ((m pfx ≡ none) × (is_neg ret ≡ true) × (n ≡ m))
Allowed (nhop_delete pfx key) m (ret, n) = (ret, n) ≡ spec (nhop_delete pfx key) m
Allowed (route_delete pfx) m (ret, n) = (ret, n) ≡ spec (route_delete pfx) m

module _ {env : Env} where
  -- The program's operation, in the VRF `v`.
  abbrev pub run_op : ℕ → RouteOp → M env ℤ
  run_op v (nhop_insert pfx key) = ntb_route_nhop_insert v pfx key rt_default
  run_op v (nhop_delete pfx key) = ntb_route_nhop_delete v pfx key rt_default
  run_op v (route_delete pfx) = ntb_route_delete v pfx

  abbrev pub Implements : ℕ → RouteOp → World env → ℤ → World env → Type 0
  Implements limit op w ret u = IsRib limit no_extra u × Allowed op (view w) (ret, view u)

  becomes-set :
      (w u : World env) (pfx : RibKey) (route : Option NhopEncapData)
      → Becomes w pfx route u
      → view u ≡ set_route (view w) pfx route
  becomes-set w u pfx route (at, others) = fun_ext λ k. elim (RibKey-discrete k pfx) [
    | yes e ↦ ap (view u) e ∙ at ∙ sym (if_pos (RibKey-discrete k pfx) e route (view w k))
    | no ne ↦ others k ne ∙ sym (if_neg (RibKey-discrete k pfx) ne route (view w k))
  ]

  module _ (v limit : ℕ) (w : World env) (h : IsRib limit no_extra w) where
    insert_new :
        (pfx : RibKey) (key : NhopEncapData)
        → env.fb.len + 1 < 2 ^ 32
        → (b : ℕ) → AtMost b w.neighs
        → b + 1 ≤ limit
        → limit < 2 ^ 32
        → env.rib.lookup w.rib pfx ≡ none
        → Returns
            (Implements limit (nhop_insert pfx key) w)
            (ntb_route_nhop_insert v pfx key rt_default w)
    insert_new pfx key room b small le limit_small new =
        Returns-mono (Inserts limit w pfx key) _ (ntb_route_nhop_insert v pfx key rt_default w)
          (ntb_route_nhop_insert-Inserts v limit pfx key w h room
            (λ p n at live. omega (arith, small p n live, le, limit_small)) new b small le)
          (λ ret u (h', done). (
            h',
            elim done [
              | inl (neg, seen) ↦ inr (view-none w pfx new, neg, fun_ext seen)
              | inr (zero_ret, becomes) ↦ inl (
                  ap (λ r. (r, view u)) zero_ret
                  ∙ ap (λ m. (pos 0, m)) (becomes-set w u pfx (some key) becomes)
                  ∙ ap (insert_spec (view w) pfx key) (sym (view-none w pfx new)))
            ],
          ))

    insert_old :
        (pfx : RibKey) (key : NhopEncapData)
        → RoutePath w pfx
        → Returns
            (Implements limit (nhop_insert pfx key) w)
            (ntb_route_nhop_insert v pfx key rt_default w)
    insert_old pfx key r =
        subst (Returns (Implements limit (nhop_insert pfx key) w))
          (sym (ntb_route_nhop_insert-existing v pfx key w r rt_default))
          (h, inl (ap (insert_spec (view w) pfx key) (sym r.seen)))

    deleted :
        (op : RouteOp) (pfx : RibKey) (x : Run (ℤ × World env))
        → ((u : World env)
            → IsRib limit no_extra u
            → view u ≡ set_route (view w) pfx none
            → Implements limit op w (pos 0) u)
        → Returns (Deleted limit w pfx) x
        → Returns (Implements limit op w) x
    deleted op pfx x fits done =
        Returns-mono (Deleted limit w pfx) (Implements limit op w) x done
          (λ ret u (zero_ret, h', becomes).
            subst (λ r. Implements limit op w r u) (sym zero_ret)
              (fits u h' (becomes-set w u pfx none becomes)))

    nhop_delete_old :
        (pfx : RibKey) (key : NhopEncapData)
        → RoutePath w pfx
        → Returns
            (Implements limit (nhop_delete pfx key) w)
            (ntb_route_nhop_delete v pfx key rt_default w)
    nhop_delete_old pfx key r = elim (NhopKey-discrete key r.key) [
      | yes e ↦
          subst (Returns (Implements limit (nhop_delete pfx key) w))
            (sym (ntb_route_nhop_delete-own v pfx key w r e))
            (deleted (nhop_delete pfx key) pfx _
              (λ u h' becomes. (
                h',
                ap (λ m. (pos 0, m))
                      (becomes ∙ sym (if_pos (NhopKey-discrete key r.key) e _ (view w)))
                    ∙ ap (nhop_delete_spec (view w) pfx key) (sym r.seen),
              ))
              (delete_last-Deleted v limit pfx w h r))
      | no ne ↦
          subst (Returns (Implements limit (nhop_delete pfx key) w))
            (sym (ntb_route_nhop_delete-other v pfx key w r h.both ne))
            (
              h,
              ap (λ m. (pos 0, m)) (sym (if_neg (NhopKey-discrete key r.key) ne _ (view w)))
                  ∙ ap (nhop_delete_spec (view w) pfx key) (sym r.seen),
            )
    ]

    -- In a state in which the invariant of the routes holds, with an array of fewer than 2 ^ 32
    -- - 1 results and no neighbour counter above b, b + 1 <= limit < 2 ^ 32, each of
    -- ntb_route_nhop_insert and ntb_route_nhop_delete for the type RT_DEFAULT, and
    -- ntb_route_delete, returns on every branch, keeps the invariant with no neighbour counter
    -- above limit, and gives the result and the routes in the RIB that the abstract operation
    -- gives; only an insertion at a prefix without a route may also give a negative result and
    -- leave the routes as they were.
    pub run_op-Implements :
        (op : RouteOp)
        → env.fb.len + 1 < 2 ^ 32
        → (b : ℕ) → AtMost b w.neighs
        → b + 1 ≤ limit
        → limit < 2 ^ 32
        → Returns (Implements limit op w) (run_op v op w)
    run_op-Implements (nhop_insert pfx key) room b small le limit_small =
        elim (Option-cases (env.rib.lookup w.rib pfx)) [
          | inl e ↦ insert_new pfx key room b small le limit_small e
          | inr (z, e) ↦ insert_old pfx key (IsRib-RoutePath limit no_extra w pfx z h e)
        ]
    run_op-Implements (nhop_delete pfx key) room b small le limit_small =
        elim (Option-cases (env.rib.lookup w.rib pfx)) [
          | inl e ↦
              subst (Returns (Implements limit (nhop_delete pfx key) w))
                (sym (ntb_route_nhop_delete-new v pfx w key e))
                (h, ap (nhop_delete_spec (view w) pfx key) (sym (view-none w pfx e)))
          | inr (z, e) ↦ nhop_delete_old pfx key (IsRib-RoutePath limit no_extra w pfx z h e)
        ]
    run_op-Implements (route_delete pfx) room b small le limit_small =
        elim (Option-cases (env.rib.lookup w.rib pfx)) [
          | inl e ↦
              subst (Returns (Implements limit (route_delete pfx) w))
                (sym (ntb_route_delete-new v pfx w e))
                (h, ap (delete_spec (view w) pfx) (sym (view-none w pfx e)))
          | inr (z, e) ↦
              let r = IsRib-RoutePath limit no_extra w pfx z h e in
              deleted (route_delete pfx) pfx (ntb_route_delete v pfx w)
                (λ u h' becomes.
                  (h', ap (λ m. (pos 0, m)) becomes ∙ ap (delete_spec (view w) pfx) (sym r.seen)))
                (ntb_route_delete-Deleted v limit pfx w h r)
        ]
