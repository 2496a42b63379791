-- ===== src/Route/Nhop/Create.antt =====
-- agent/route.c: nhop_obj_create and the table of next hops.

use tao_p4code.Base.{
  ℕ, ℤ, pos, negsuc, ◌+◌, ◌^◌, ◌<◌, ◌≡◌, refl, Option, none, some, arith, inl, inr, if◌then◌else◌,
  Option-cases, is_neg, update, update_self, inc32,
}
use tao_p4code.Types.{NhopEncapData, FibNhop}
use tao_p4code.Dpdk.Owned.{Owned-write, Owned-add, Owned-mono}
use tao_p4code.World.{Env, World, Returns, Returns-follow}
use tao_p4code.Neigh.Safety as NeighSafety
use tao_p4code.Route.Nhop.{nhop_of, nhop_neigh, nhop_new, nhop_use, created_step, nhop_obj_create}
use tao_p4code.Route.Nhop.Safety.{NhopKey-discrete, InUse, IsSound, BothSound, NeighRoom, NhopRoom}
use tao_p4code.Route.Nhop.Draft.{Draft, Making, Made}
use tao_p4code.Route.Nhop.Alloc.{Outcome, nhop_neigh-Outcome}

module _ {env : Env} where
  -- The result of nhop_obj_create: on success a pointer to the object of `key`, in a sound state.
  abbrev pub Created : NhopEncapData → ℤ × Option ℕ → World env → Type 0
  Created key (pos r, some p) w = BothSound w × (env.nhop.lookup w.nhop_tbl key ≡ some p)
  Created key (pos r, none) w = ⊥
  Created key (negsuc r, o) w = BothSound w

  -- What nhop_new returns: an object with no use yet, or a negative result.
  abbrev NewOutcome : NhopEncapData → ℤ × Option ℕ → World env → Type 0
  NewOutcome key (pos r, some p) w = Made key p w
  NewOutcome key (pos r, none) w = ⊥
  NewOutcome key (negsuc r, some p) w = ⊥
  NewOutcome key (negsuc r, none) w = BothSound w

  nhop_new-NewOutcome :
      (v : ℕ) (key : NhopEncapData) (w : World env)
      → BothSound w
      → NeighRoom v key w
      → Returns (NewOutcome key) (nhop_new v key w)
  unfolding nhop_new
  nhop_new-NewOutcome v key w (s, t) room = elim (Option-cases (env.zmalloc w.nhops)) [
    | inl e ↦ rw (e, nhop_new) (s, t)
    | inr (p, e) ↦ elim (Option-cases (env.nhop.add w.nhop_tbl key p)) [
      | inl f ↦ rw (e, f, nhop_new) (s, t)
      | inr (u, f) ↦
          rw (e, f, nhop_new)
            (Returns-follow _ (NewOutcome key) (nhop_neigh v key p (entering p u)) _
              (nhop_neigh-Outcome v key p (entering p u) (making p u e f) room)
              λ ret w' h. step p ret w' h)
    ]
  ]
    where
      entering : ℕ → env.nhop.Tbl → World env
      entering p u = record w { nhop_tbl = u; nhops = update w.nhops p (some (nhop_of key)) }

      making :
          (p : ℕ) (u : env.nhop.Tbl)
          → env.zmalloc w.nhops ≡ some p
          → env.nhop.add w.nhop_tbl key p ≡ some u
          → Making key p (entering p u)
      making p u e f = record {
        nhops =
            Owned-add env.nhop (Draft key) NhopKey-discrete
              (Owned-mono env.nhop InUse (Draft key) s (λ k q a g h i. (i.0, λ _. i.1, i.2))) key p
              (nhop_of key) u (env.zmalloc_fresh w.nhops p e) f
              (refl, λ ne. absurd (ne refl), omega arith);
        neighs = t;
        entered = env.nhop.lookup-add_self w.nhop_tbl u key p f;
        fresh = update_self w.nhops p (some (nhop_of key));
      }

      step :
          (p : ℕ) (ret : ℤ) (w' : World env)
          → Outcome key p ret w'
          → NewOutcome key (ret, if is_neg ret then none else some p) w'
      step p (pos r) w' h = h
      step p (negsuc r) w' h = h

  -- The first use of a new object.
  first_use :
      (key : NhopEncapData) (p r : ℕ) (w : World env)
      → Made key p w
      → Returns (λ _ w'. BothSound w' × (env.nhop.lookup w'.nhop_tbl key ≡ some p)) (nhop_use p w)
  unfolding nhop_use
  first_use key p r w m =
      let (n, at, own, unused) = m.made in
      rw (at, nhop_use)
        (
          (
            Owned-mono env.nhop (Draft key) InUse
                (Owned-write env.nhop (Draft key) NhopKey-discrete m.nhops key p _ m.entered
                  (own, λ _. omega (arith, unused), omega (arith, unused)))
                (λ k q a e h d. (
                  d.0,
                  elim (NhopKey-discrete k key) [
                    | yes same ↦ used n unused q a (only k q e same) h
                    | no ne ↦ d.1 ne
                  ],
                  d.2,
                )),
            m.neighs,
          ),
          m.entered,
        )
    where
      only : (k : NhopEncapData) (q : ℕ) → env.nhop.lookup w.nhop_tbl k ≡ some q → k ≡ key → q ≡ p
      only k q e same = cc (m.entered)

      used :
          (n : FibNhop)
          → n.ref_count ≡ 0
          → (q : ℕ) (a : FibNhop) → q ≡ p
          → update w.nhops p (some (record n { ref_count = inc32 n.ref_count })) q ≡ some a
          → 0 < a.ref_count
      used n unused q a same h = ground arith

  -- In a sound state, where the counts of the next hop and of its neighbour, if they exist, are
  -- not at their largest value, nhop_obj_create returns on every branch, roll-backs included; it
  -- leaves the tables of next hops and neighbours sound, and where the result is not negative, a
  -- pointer that the table holds under the argument.
  pub nhop_obj_create-IsSound :
      (v : ℕ) (key : NhopEncapData) (w : World env)
      → IsSound w
      → NeighSafety.IsSound w
      → NhopRoom key w
      → NeighRoom v key w
      → Returns (Created key) (nhop_obj_create v key w)
  unfolding nhop_obj_create
  nhop_obj_create-IsSound v key w s t room neigh_room =
      elim (Option-cases (env.nhop.lookup w.nhop_tbl key)) [
        | inl e ↦
            rw (e, nhop_obj_create)
              (Returns-follow (NewOutcome key) (Created key) (nhop_new v key w) _
                (nhop_new-NewOutcome v key w (s, t) neigh_room) step)
        | inr (p, e) ↦
            let (n, live, own) = s.live key p e in
            rw (e, nhop_obj_create)
              (Returns-follow _ (Created key) (nhop_use p w) _
                (again p n e live own (room p n e live)) (λ _ u h. h))
      ]
    where
      again :
          (p : ℕ) (n : FibNhop)
          → env.nhop.lookup w.nhop_tbl key ≡ some p
          → w.nhops p ≡ some n
          → InUse key n
          → n.ref_count + 1 < 2 ^ 32
          → Returns
              (λ _ w'. BothSound w' × (env.nhop.lookup w'.nhop_tbl key ≡ some p))
              (nhop_use p w)
      again p n e live own small =
          rw (live, nhop_use)
            (
              (
                Owned-write env.nhop InUse NhopKey-discrete s key p _ e
                    (own.0, omega arith, omega arith),
                t,
              ),
              e,
            )

      step :
          (a : ℤ × Option ℕ) (w' : World env)
          → NewOutcome key a w'
          → Returns (Created key) (created_step a w')
      step (pos r, some p) w' m =
          Returns-follow _ (Created key) (nhop_use p w') _ (first_use key p r w' m) (λ _ u h. h)
      step (pos r, none) w' m = absurd m
      step (negsuc r, some p) w' m = absurd m
      step (negsuc r, none) w' s' = s'
