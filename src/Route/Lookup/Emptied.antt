-- ===== src/Route/Lookup/Emptied.antt =====
-- agent/route.c: the routes that ntb_route_cleanup leaves.

use tao_p4code.Base.{
  ℕ, ℤ, pos, zero, suc, ◌+◌, ◌<◌, ◌≤◌, ◌≡◌, ◌≢◌, refl, sym, ap, ◌∙◌, inl, inr, none, some, arith,
  false, Bool-cases, Option-cases, ◌==◌, ==_iff,
}
use tao_p4code.Types.{RibKey}
use tao_p4code.Dpdk.Walk.{Walks}
use tao_p4code.World.{Env, World, pure, Returns, Returns-follow, Returns-mono}
use tao_p4code.World.Kept.{SameVrfs, SameVrfs-eq, SameVrfs-trans, Returns-Partly, erase_rib}
use tao_p4code.Route.Prefix.Write.{RibKey-discrete}
use tao_p4code.Route.Update.{ntb_route_delete}
use tao_p4code.Route.Update.Kept.{ntb_route_delete-KeepsVrfs}
use tao_p4code.Route.Lookup.{cleanup_loop, ntb_route_cleanup}
use tao_p4code.Route.Rib.{no_extra, IsRib, IsRib-RoutePath, view}
use tao_p4code.Route.Rib.Delete.{Deleted, ntb_route_delete-Deleted}

apart_id : (a b : ℕ) → (a == b) ≡ false → a ≡ b → ⊥
apart_id a b e same = ground arith

module _ {env : Env} where
  -- The state with the RIB of another one.
  abbrev pub with_rib : World env → World env → World env
  with_rib w u = record w { rib = u.rib }

  -- The invariant holds, the array of VRFs is as it was, and so are the routes of other VRFs.
  abbrev pub Others : ℕ → ℕ → World env → World env → Type 0
  Others limit id w u =
      IsRib limit no_extra u
      × SameVrfs (with_rib w u) u
      × ((k : RibKey) → k.vrf_id ≢ id → view u k ≡ view w k)

  abbrev pub NoneLeft : ℕ → World env → Type 0
  NoneLeft id u = (k : RibKey) → k.vrf_id ≡ id → env.rib.lookup u.rib k ≡ none

  abbrev pub Emptied : ℕ → ℕ → World env → World env → Type 0
  Emptied limit id w u = Others limit id w u × NoneLeft id u

  Others-refl : (limit id : ℕ) (w : World env) → IsRib limit no_extra w → Others limit id w w
  Others-refl limit id w h = (h, SameVrfs-eq w w refl refl refl refl, λ k ne. refl)

  Others-Emptied :
      (limit id : ℕ) (w x u : World env)
      → Others limit id w x
      → Emptied limit id x u
      → Emptied limit id w u
  Others-Emptied limit id w x u (h, s, o) ((h', s', o'), gone) = (
    (
      h',
      SameVrfs-trans
          (record {
            name = s.name;
            valid = s.valid;
            vrf_id = s.vrf_id;
            tunnel_rmap = s.tunnel_rmap;
            internal_ip = s.internal_ip;
            route_mac = s.route_mac;
            vrf_n = s.vrf_n;
            tunnels = s.tunnels;
            rib = refl;
          })
          s',
      λ k ne. o' k ne ∙ o k ne,
    ),
    gone,
  )

  delete-Others :
      (limit v id : ℕ) (key : RibKey) (z : ℤ) (w : World env)
      → IsRib limit no_extra w
      → env.rib.lookup w.rib key ≡ some z
      → key.vrf_id ≡ id
      → Returns
          (λ _ u. Others limit id w u × (u.rib ≡ env.rib.del w.rib key))
          (ntb_route_delete v key w)
  delete-Others limit v id key z w h at own =
      Returns-mono (λ ret u. Deleted limit w key ret u × SameVrfs (erase_rib key w) u) _
        (ntb_route_delete v key w)
        (Returns-Partly (Deleted limit w key) (λ _. SameVrfs (erase_rib key w))
          (ntb_route_delete v key w)
          (ntb_route_delete-Deleted v limit key w h (IsRib-RoutePath limit no_extra w key z h at))
          (ntb_route_delete-KeepsVrfs v key z w at))
        (λ ret u ((_, h', (gone, others)), s). (
          (
            h',
            record {
              name = s.name;
              valid = s.valid;
              vrf_id = s.vrf_id;
              tunnel_rmap = s.tunnel_rmap;
              internal_ip = s.internal_ip;
              route_mac = s.route_mac;
              vrf_n = s.vrf_n;
              tunnels = s.tunnels;
              rib = refl;
            },
            λ k ne. others k (λ e. ne (ap (λ r. r.vrf_id) e ∙ own)),
          ),
          s.rib,
        ))

  module _ (walks : Walks env.rib) (limit v id : ℕ) where
    -- No route of the VRF stands before the position `iter`.
    abbrev Ahead : World env → ℕ → Type 0
    Ahead w iter =
        (k : RibKey) (z : ℤ)
        → env.rib.lookup w.rib k ≡ some z
        → k.vrf_id ≡ id
        → iter ≤ walks.slot w.rib k

    -- A route other than the one that the iteration met stands behind it.
    beyond :
        (w : World env) (iter next : ℕ) (key k : RibKey) (y z : ℤ)
        → env.rib.iterate w.rib iter ≡ some (next, key, y)
        → env.rib.lookup w.rib k ≡ some z
        → k ≢ key
        → iter ≤ walks.slot w.rib k
        → next ≤ walks.slot w.rib k
    beyond w iter next key k y z e at ne low =
        let here = walks.at w.rib iter next key y e in
        let le = walks.first w.rib iter next key k y z e at low in
        let apart : walks.slot w.rib k ≢ walks.slot w.rib key = λ same.
          ne (
            walks.apart w.rib k key z y at (env.rib.iterate-lookup w.rib iter next key y e) same) in
        omega (arith, here, le, apart)

    Ahead-deleted :
        (w u : World env) (iter next : ℕ) (key : RibKey) (y : ℤ)
        → env.rib.iterate w.rib iter ≡ some (next, key, y)
        → u.rib ≡ env.rib.del w.rib key
        → Ahead w iter
        → Ahead u next
    Ahead-deleted w u iter next key y e del ahead k z at own =
        let at' : env.rib.lookup (env.rib.del w.rib key) k ≡ some z =
          ap (λ r. env.rib.lookup r k) (sym del) ∙ at in
        elim (RibKey-discrete k key) [
          | yes same ↦
              let gone : env.rib.lookup (env.rib.del w.rib key) k ≡ none =
                ap (env.rib.lookup (env.rib.del w.rib key)) same
                ∙ env.rib.lookup-del_self w.rib key in
              absurd (cc)
          | no ne ↦
              let before = sym (env.rib.lookup-del_ne w.rib key k ne) ∙ at' in
              let low = beyond w iter next key k y z e before ne (ahead k z before own) in
              let slot : walks.slot u.rib k ≡ walks.slot w.rib k =
                ap (λ r. walks.slot r k) del ∙ walks.stays w.rib key k z at' in
              omega (arith, low, slot)
        ]

    cleanup_loop-Emptied :
        (rounds iter : ℕ) (w : World env)
        → IsRib limit no_extra w
        → (w.vrfs v).dp.vrf_id ≡ id
        → Ahead w iter
        → iter ≤ env.rib.entries
        → env.rib.entries < iter + rounds
        → Returns (λ _. Emptied limit id w) (cleanup_loop rounds v iter w)
    unfolding cleanup_loop
    cleanup_loop-Emptied zero iter w h is ahead low enough = absurd (omega (arith, low, enough))
    cleanup_loop-Emptied (suc rounds) iter w h is ahead low enough =
        elim (Option-cases (env.rib.iterate w.rib iter)) [
          | inl e ↦
              rw (e, cleanup_loop)
                (
                  Others-refl limit id w h,
                  λ k own. elim (Option-cases (env.rib.lookup w.rib k)) [
                    | inl gone ↦ gone
                    | inr (z, at) ↦
                        absurd (omega (arith, ahead k z at own, walks.last w.rib iter k z e at))
                  ],
                )
          | inr ((next, key, z), e) ↦
              let (up, le) = env.rib.iterate_bounds w.rib iter next key z e in
              let at = env.rib.iterate-lookup w.rib iter next key z e in
              let more : (u : World env)
                  → Others limit id w u
                  → Ahead u next
                  → Returns (λ _. Emptied limit id w) (cleanup_loop rounds v next u) =
                λ u o later.
                  Returns-mono (λ _. Emptied limit id u) (λ _. Emptied limit id w)
                    (cleanup_loop rounds v next u)
                    (cleanup_loop-Emptied rounds next u o.0 (o.1.vrf_id v ∙ is) later le
                      (omega (arith, up, enough)))
                    (λ _ x d. Others-Emptied limit id w u x o d) in
              rw (e, cleanup_loop)
                (elim (Bool-cases ((w.vrfs v).dp.vrf_id == key.vrf_id)) [
                  | inl own ↦ rw own (
                      Returns-follow (λ _ u. Others limit id w u × (u.rib ≡ env.rib.del w.rib key))
                        (λ _. Emptied limit id w) (ntb_route_delete v key w)
                        (λ r. cleanup_loop rounds v next)
                        (delete-Others limit v id key z w h at (sym ((==_iff _ _).0 own) ∙ is))
                        (λ r u (o, del). more u o (Ahead-deleted w u iter next key z e del ahead)))
                  | inr other ↦ rw other (
                      more w (Others-refl limit id w h) (λ k y at' own'.
                        beyond w iter next key k z y e at'
                          (λ same.
                            apart_id (w.vrfs v).dp.vrf_id key.vrf_id other
                              (is ∙ sym own' ∙ ap (λ r. r.vrf_id) same))
                          (ahead k y at' own')))
                ])
        ]

    -- Where the RIB holds each entry at a position of its own, the iteration passes them in that
    -- order, and the invariant of the routes holds, ntb_route_cleanup of a VRF comes to its end
    -- and returns 0. Then no prefix of the id of the VRF has a route left, the prefixes of other
    -- ids have the routes that they had, the invariant holds, and the array of VRFs, its FIBs
    -- and counters aside, and the tunnels are as they were.
    pub ntb_route_cleanup-Emptied :
        (w : World env)
        → IsRib limit no_extra w
        → (w.vrfs v).dp.vrf_id ≡ id
        → Returns (λ ret u. (ret ≡ pos 0) × Emptied limit id w u) (ntb_route_cleanup v w)
    unfolding ntb_route_cleanup
    ntb_route_cleanup-Emptied w h is =
        Returns-follow (λ _. Emptied limit id w) _ (cleanup_loop (env.rib.entries + 1) v 0 w)
          (λ _. pure (pos 0))
          (cleanup_loop-Emptied (env.rib.entries + 1) 0 w h is (λ k z at own. omega arith)
            (omega arith) (omega arith))
          (λ _ u c. (refl, c))
