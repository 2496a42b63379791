-- ===== src/Route/Lookup/Cleanup.antt =====
-- agent/route.c: the end of the loop of ntb_route_cleanup, by the positions of the iteration over the
-- RIB.
use tao_p4code.Base.{
  ℕ, ℤ, pos, zero, suc, ◌+◌, ◌<◌, ◌≤◌, ◌≡◌, ◌⊎◌, refl, ap, ◌∙◌, inl, inr, none, some, arith,
  Bool-cases, Option-cases, ◌==◌,
}
use tao_p4code.Types.{RibKey}
use tao_p4code.World.{Env, World, pure, Returns, Returns-follow, Returns-mono}
use tao_p4code.Route.Prefix.Write.{RibKey-discrete}
use tao_p4code.Route.Update.{ntb_route_delete}
use tao_p4code.Route.Lookup.{cleanup_loop, ntb_route_cleanup}
use tao_p4code.Route.Rib.{no_extra, IsRib, IsRib-RoutePath, view}
use tao_p4code.Route.Rib.Delete.{Deleted, ntb_route_delete-Deleted}

module _ {env : Env} where
  -- The invariant holds, and each prefix has the route that it had, or none.
  abbrev pub Cleaned : ℕ → World env → World env → Type 0
  Cleaned limit w u =
      IsRib limit no_extra u × ((k : RibKey) → (view u k ≡ view w k) ⊎ (view u k ≡ none))

  Cleaned-trans :
      (limit : ℕ) (w x u : World env) → Cleaned limit w x → Cleaned limit x u → Cleaned limit w u
  Cleaned-trans limit w x u (h, first) (h', second) = (
    h',
    λ k. elim (second k) [
      | inr gone ↦ inr gone
      | inl same ↦ elim (first k) [ inl same' ↦ inl (same ∙ same') | inr gone ↦ inr (same ∙ gone) ]
    ],
  )

  delete-Cleaned :
      (limit v : ℕ) (key : RibKey) (id : ℤ) (w : World env)
      → IsRib limit no_extra w
      → env.rib.lookup w.rib key ≡ some id
      → Returns (λ _. Cleaned limit w) (ntb_route_delete v key w)
  delete-Cleaned limit v key id w h at =
      Returns-mono (Deleted limit w key) _ (ntb_route_delete v key w)
        (ntb_route_delete-Deleted v limit key w h (IsRib-RoutePath limit no_extra w key id h at))
        (λ ret u (zero_ret, h', (gone, others)). (
          h',
          λ k. elim (RibKey-discrete k key) [
            | yes e ↦ inr (ap (view u) e ∙ gone)
            | no ne ↦ inl (others k ne)
          ],
        ))

  cleanup_loop-Cleaned :
      (rounds v iter limit : ℕ) (w : World env)
      → IsRib limit no_extra w
      → iter ≤ env.rib.entries
      → env.rib.entries < iter + rounds
      → Returns (λ _. Cleaned limit w) (cleanup_loop rounds v iter w)
  unfolding cleanup_loop
  cleanup_loop-Cleaned zero v iter limit w h low enough = absurd (omega (arith, low, enough))
  cleanup_loop-Cleaned (suc rounds) v iter limit w h low enough =
      elim (Option-cases (env.rib.iterate w.rib iter)) [
        | inl e ↦ rw (e, cleanup_loop) (h, λ k. inl refl)
        | inr ((next, key, id), e) ↦
            let (up, le) = env.rib.iterate_bounds w.rib iter next key id e in
            let at = env.rib.iterate-lookup w.rib iter next key id e in
            let more : (u : World env)
                → Cleaned limit w u
                → Returns (λ _. Cleaned limit w) (cleanup_loop rounds v next u) =
              λ u c.
                Returns-mono (λ _. Cleaned limit u) (λ _. Cleaned limit w)
                  (cleanup_loop rounds v next u)
                  (cleanup_loop-Cleaned rounds v next limit u c.0 le (omega (arith, up, enough)))
                  (λ _ x d. Cleaned-trans limit w u x c d) in
            rw (e, cleanup_loop)
              (elim (Bool-cases ((w.vrfs v).dp.vrf_id == key.vrf_id)) [
                | inl own ↦ rw own (
                    Returns-follow (λ _. Cleaned limit w) (λ _. Cleaned limit w)
                      (ntb_route_delete v key w) (λ r. cleanup_loop rounds v next)
                      (delete-Cleaned limit v key id w h at) (λ r u c. more u c))
                | inr other ↦ rw other (more w (h, λ k. inl refl))
              ])
      ]

  -- In a state in which the invariant of the routes holds, the loop of ntb_route_cleanup ends
  -- within as many rounds as the RIB has positions and one more: the call returns 0, the
  -- invariant holds with the same bound on the neighbour counters, and each prefix has the route
  -- that it had, or none.
  pub ntb_route_cleanup-Cleaned :
      (v limit : ℕ) (w : World env)
      → IsRib limit no_extra w
      → Returns (λ ret u. (ret ≡ pos 0) × Cleaned limit w u) (ntb_route_cleanup v w)
  unfolding ntb_route_cleanup
  ntb_route_cleanup-Cleaned v limit w h =
      Returns-follow (λ _. Cleaned limit w) _ (cleanup_loop (env.rib.entries + 1) v 0 w)
        (λ _. pure (pos 0))
        (cleanup_loop-Cleaned (env.rib.entries + 1) v 0 limit w h (omega arith) (omega arith))
        (λ _ u c. (refl, c))
