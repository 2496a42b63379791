-- ===== src/Tests/Ribs.antt =====
-- The results on the routes as a whole at concrete inputs.
use native.Mathlib.Decide.{ℕ_discrete}
use mathlib.Core.Option.{some-injective}
use tao_p4code.Base.{
  ℤ, none, ℕ, pos, ◌+◌, ◌≡◌, refl, sym, ap, ◌∙◌, some, List, [], ◌∷◌, arith, leb, update_self,
}
use tao_p4code.Base.Count.{count_below, count_below-none}
use tao_p4code.Types.{FibRes, RibKey, NhopEncapData, rt_default, rt_mroute}
use tao_p4code.Dpdk.Owned.{update_ne}
use tao_p4code.World.{World, ok, Returns}
use tao_p4code.Neigh.{ntb_neigh_add}
use tao_p4code.Neigh.Bound.{IsBounded, AtMost, ntb_neigh_add-IsBounded}
use tao_p4code.Route.Nhop.{nhop_obj_create, nhop_obj_delete}
use tao_p4code.Route.Nhop.Safety.{NhopKey-discrete}
use tao_p4code.Route.Prefix.Write.{RibKey-discrete}
use tao_p4code.Route.Update.{ntb_route_nhop_insert}
use tao_p4code.Route.Rib.{uses, no_extra, one_extra, IsRib, RoutePath, view, view-key, holder}
use tao_p4code.Route.Rib.Uses.{Kept, Gained, nhop_obj_create-Gained}
use tao_p4code.Route.Rib.Release.{nhop_obj_delete-Kept}
use tao_p4code.Route.Rib.Existing.{existing_code, ntb_route_nhop_insert-existing}
use tao_p4code.Route.Rib.Refine.{
  RouteOp, nhop_insert, nhop_delete, route_delete, Implements, run_op-Implements,
}
use tao_p4code.Route.Rib.History.{History, run_ops, run_ops-History}
use tao_p4code.Route.Lookup.{ntb_route_cleanup}
use tao_p4code.Route.Lookup.Cleanup.{Cleaned, ntb_route_cleanup-Cleaned}
use tao_p4code.Route.Rib.Results.{first_path}
use tao_p4code.Demo.{a_prefix, write_at_ne, demo_env, start, none_ne_some, write_at, write_at_self}
use tao_p4code.Tests.{
  vxlan_key, one_nhop, start-NeighSound, start-NhopSound, one_nhop-NhopSound, one_neigh-NeighSound,
}
use tao_p4code.Tests.Routes.{one_route}

start-AtMost : (b : ℕ) → AtMost b start.neighs
start-AtMost b p n e = absurd (none_ne_some e)

start-IsRib : (b : ℕ) → IsRib b no_extra start
start-IsRib b = record {
  both = (start-NhopSound, start-NeighSound);
  most = start-AtMost b;
  held = λ p i low taken path. absurd (cc);
  counted = λ k p n e live. absurd (none_ne_some e);
  routed = λ k z e. absurd (none_ne_some e);
  apart = λ j k id e f. absurd (none_ne_some e);
}

-- Two prefixes with the same next hop, which is deleted with the first of them.
abbrev pub b_prefix : RibKey
b_prefix = record a_prefix { prefix4 = 7 }

abbrev pub b_key : NhopEncapData
b_key = record vxlan_key { gateway = 4 }

abbrev pub ops : List (ℕ × RouteOp)
ops =
    (0, nhop_insert a_prefix vxlan_key)
    ∷ ((0, nhop_insert b_prefix vxlan_key)
        ∷ ((1, nhop_insert a_prefix b_key)
            ∷ ((0, nhop_delete a_prefix vxlan_key) ∷ ((0, route_delete b_prefix) ∷ []))))

run_ops-History_example :
    Returns
      (λ rets u. IsRib 5 no_extra u × History ops (view start) rets (view u))
      (run_ops ops start)
run_ops-History_example = run_ops-History ops 0 start (start-IsRib 0) (omega arith) (omega arith)

run_op-Implements_example :
    Returns
      (Implements 1 (nhop_insert a_prefix vxlan_key) start)
      (ntb_route_nhop_insert 0 a_prefix vxlan_key rt_default start)
run_op-Implements_example =
    run_op-Implements 0 1 start (start-IsRib 1) (nhop_insert a_prefix vxlan_key) (omega arith) 0
      (start-AtMost 0) (omega arith) (omega arith)

nhop_obj_create-Gained_example :
    Returns (Gained 1 start vxlan_key) (nhop_obj_create 0 vxlan_key start)
nhop_obj_create-Gained_example =
    nhop_obj_create-Gained 0 1 vxlan_key start (start-IsRib 1) (omega arith)
      (λ p n e live. absurd (none_ne_some e)) 0 (start-AtMost 0) (omega arith)

one_nhop-IsRib : IsRib 1 (one_extra 1) one_nhop
one_nhop-IsRib = record {
  both = (one_nhop-NhopSound, one_neigh-NeighSound);
  most = λ p n e. elim (ℕ_discrete p 1) [
    | yes h ↦ omega (
      arith,
      ap (λ x. x.refcnt)
          (some-injective _ n
            (sym (update_self start.neighs 1 _) ∙ ap one_nhop.neighs (sym h) ∙ e)),
    )
    | no ne ↦ absurd (none_ne_some (sym (update_ne start.neighs 1 p _ ne) ∙ e))
  ];
  held = λ p i low taken path. absurd (cc);
  counted = λ k p n at live. elim (ℕ_discrete p 1) [
    | yes h ↦
        sym (
          ap (λ x. x.ref_count)
            (some-injective _ n
              (sym (update_self start.nhops 1 _) ∙ ap one_nhop.nhops (sym h) ∙ live)))
        ∙ ap (λ x. x + 1) (sym (count_below-none (holder one_nhop p) 8 (λ i low. ground arith)))
        ∙ ground (arith, h)
    | no ne ↦ absurd (none_ne_some (sym (update_ne start.nhops 1 p _ ne) ∙ live))
  ];
  routed = λ k z e. absurd (none_ne_some e);
  apart = λ j k id e f. absurd (none_ne_some e);
}

nhop_obj_delete-Kept_example :
    Returns
      (λ ret u. (ret ≡ pos 0) × IsRib 1 no_extra u × Kept one_nhop u)
      (nhop_obj_delete 0 (some 1) one_nhop)
nhop_obj_delete-Kept_example =
    nhop_obj_delete-Kept 0 1 vxlan_key one_nhop 1 one_nhop-IsRib
      (write_at_self NhopKey-discrete start.nhop_tbl vxlan_key (some 1))

-- The RIB leads from a prefix to the result 1.
abbrev pub a_route : World demo_env
a_route = record one_route {
  rib = write_at RibKey-discrete start.rib a_prefix (some (pos 1));
  fb = λ i. leb i 1;
}

a_route-RoutePath : RoutePath a_route a_prefix
a_route-RoutePath =
    let entry : a_route.rib a_prefix ≡ some (pos 1) =
      write_at_self RibKey-discrete start.rib a_prefix (some (pos 1)) in
    let hop : a_route.nhop_tbl vxlan_key ≡ some 1 =
      write_at_self NhopKey-discrete start.nhop_tbl vxlan_key (some 1) in
    record {
      id = 1;
      at = 1;
      key = vxlan_key;
      entry = entry;
      low = omega arith;
      taken = refl;
      path = refl;
      plain = record { count = refl; room = refl; unicast = refl };
      hop = hop;
      seen =
          view-key a_route a_prefix 1 1 vxlan_key (one_nhop-NhopSound, one_neigh-NeighSound) entry
            refl hop;
    }

-- The next hop that a result leads to is the one at 1.
a_route-paths : (i p : ℕ) → (a_route.fib_res i).mpath ≡ some p ∷ [] → (i ≡ 1) × (p ≡ 1)
a_route-paths i p e = elim (ℕ_discrete i 1) [
  | yes h ↦ (h, sym (first_path 1 p (sym (ap (λ (x : ℕ). (a_route.fib_res x).mpath) h) ∙ e)))
  | no ne ↦
      let other : (a_route.fib_res i).mpath ≡ none ∷ [] =
        ap (λ (r : FibRes). r.mpath) (update_ne start.fib_res 1 i (a_route.fib_res 1) ne) in
      absurd (cc)
]

a_route-entry : (k : RibKey) (z : ℤ) → a_route.rib k ≡ some z → (k ≡ a_prefix) × (z ≡ pos 1)
a_route-entry k z e = elim (RibKey-discrete k a_prefix) [
  | yes h ↦ (
    h,
    some-injective z (pos 1) (
        sym e ∙ ap a_route.rib h ∙ write_at_self RibKey-discrete start.rib a_prefix (some (pos 1))),
  )
  | no ne ↦
      absurd (
        none_ne_some (sym (write_at_ne RibKey-discrete start.rib a_prefix k (some (pos 1)) ne) ∙ e))
]

pub a_route-IsRib : IsRib 1 no_extra a_route
unfolding count_below
a_route-IsRib = record {
  both = (one_nhop-NhopSound, one_neigh-NeighSound);
  most = one_nhop-IsRib.most;
  held = λ p i low taken path.
      let (at, one) = a_route-paths i p path in
      (
        vxlan_key,
        write_at_self NhopKey-discrete start.nhop_tbl vxlan_key (some 1) ∙ ap some (sym one),
      );
  counted = λ k p n at live. elim (ℕ_discrete p 1) [
    | yes h ↦
        sym (
          ap (λ x. x.ref_count)
            (some-injective _ n
              (sym (update_self start.nhops 1 _) ∙ ap one_nhop.nhops (sym h) ∙ live)))
        ∙ ap (λ q. uses a_route q + 0) (sym h)
    | no ne ↦ absurd (none_ne_some (sym (update_ne start.nhops 1 p _ ne) ∙ live))
  ];
  routed = λ k z e.
      let (key, one) = a_route-entry k z e in
      record {
        id = 1;
        at = 1;
        is = one;
        low = omega arith;
        taken = refl;
        path = refl;
        plain = record { count = refl; room = refl; unicast = refl };
      };
  apart = λ j k id e f.
      let (first, one) = a_route-entry j (pos id) e in
      let (second, two) = a_route-entry k (pos id) f in first ∙ sym second;
}

ntb_route_nhop_insert-existing_example :
    ntb_route_nhop_insert 0 a_prefix vxlan_key rt_mroute a_route
    ≡ ok (existing_code rt_mroute, a_route)
ntb_route_nhop_insert-existing_example =
    ntb_route_nhop_insert-existing 0 a_prefix vxlan_key a_route a_route-RoutePath rt_mroute

ntb_neigh_add-IsBounded_example : Returns (λ _. IsBounded 1) (ntb_neigh_add start 0 9)
ntb_neigh_add-IsBounded_example =
    ntb_neigh_add-IsBounded 0 start 0 9 (start-NeighSound, start-AtMost 0)
      (λ p n e live. absurd (none_ne_some e))

ntb_route_cleanup-Cleaned_example :
    Returns (λ ret u. (ret ≡ pos 0) × Cleaned 1 a_route u) (ntb_route_cleanup 0 a_route)
ntb_route_cleanup-Cleaned_example = ntb_route_cleanup-Cleaned 0 1 a_route a_route-IsRib
