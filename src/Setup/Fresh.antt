-- ===== src/Setup/Fresh.antt =====
-- What ntb_vrf_init leaves where every table can be made: empty tables, results without paths, and
-- no VRF in use.
use tao_p4code.Base.{
  ℕ, ℤ, pos, zero, suc, ◌+◌, ◌<◌, ◌≤◌, ◌≡◌, refl, sym, ap, ◌∙◌, false, Option, none, some, List, [],
  ◌∷◌, arith, update, update_self,
}
use native.Mathlib.Decide.{ℕ_discrete}
use tao_p4code.Types.{RibKey, NhopEncapData, FibRes, fib_res_set_flags, frf_reject, ntb_nr_vrf}
use tao_p4code.Dpdk.Owned.{update_ne}
use tao_p4code.World.{Env, World, set_dp, pure, ◌>>◌, Returns, Returns-follow}
use tao_p4code.Setup.{
  Setup, vrf_zero, ntb_nhop_init, ntb_vrf_route_init, vrfs_init, blackhole_init, ntb_vrf_init,
}

add_zero : (i : ℕ) → i + 0 ≡ i
add_zero i = omega arith

add_suc : (i n : ℕ) → i + suc n ≡ (i + 1) + n
add_suc i n = omega arith

flags-mpath : (r : FibRes) → (fib_res_set_flags r frf_reject).mpath ≡ r.mpath
flags-mpath r = ground arith

no_path : (p : ℕ) → ◌≡◌ {A = List (Option ℕ)} (none ∷ []) (some p ∷ []) → ⊥
no_path p e = cc

module _ {env : Env} where
  -- What ntb_vrf_init leaves.
  pub record Blank (w u : World env) : Type 0 where
    pub paths : (i p : ℕ) → (u.fib_res i).mpath ≡ some p ∷ [] → ⊥
    pub rib : (k : RibKey) → env.rib.lookup u.rib k ≡ none
    pub nhops : (k : NhopEncapData) → env.nhop.lookup u.nhop_tbl k ≡ none
    pub neighs : u.neighs ≡ w.neighs
    pub vrf_n : u.vrf_n ≡ w.vrf_n
    pub cleared : (j : ℕ) → j < ntb_nr_vrf → (u.vrfs j).valid ≡ false
    pub untouched : (j : ℕ) → ntb_nr_vrf ≤ j → (u.vrfs j).valid ≡ (w.vrfs j).valid

module _ {env : Env} (s : Setup env) where
  -- Every table can be made, and the array of results has a free element.
  pub record Enough : Type 0 where
    pub arr : env.fb.Arr
    pub bh : ℕ
    pub rib : env.rib.Tbl
    pub nhop : env.nhop.Tbl
    pub neigh : env.neigh.Tbl
    pub tunnel : env.tunnel.Tbl
    pub fbarray : s.fbarray ≡ some arr
    pub free : env.fb.find_next_free arr ≡ some bh
    pub has_rib : s.rib ≡ some rib
    pub has_nhop : s.nhop ≡ some nhop
    pub has_neigh : s.neigh ≡ some neigh
    pub has_tunnel : s.tunnel ≡ some tunnel
    pub has_fib : (i : ℕ) (id : ℤ) → (f : env.fib.Fib) × (s.fib i id ≡ some f)

  -- The RIB is the empty table that the static variable holds, from the first element on.
  abbrev Started : ℕ → Option env.rib.Tbl → World env → Type 0
  Started i none u = i ≡ 0
  Started i (some t) u = (u.rib ≡ t) × ((k : RibKey) → env.rib.lookup t k ≡ none)

  -- The loop has done the elements below `i`; `t` is the static variable.
  record Progress (i : ℕ) (t : Option env.rib.Tbl) (w u : World env) : Type 0 where
    fb : u.fb ≡ w.fb
    fib_res : u.fib_res ≡ w.fib_res
    neighs : u.neighs ≡ w.neighs
    vrf_n : u.vrf_n ≡ w.vrf_n
    cleared : (j : ℕ) → j < i → (u.vrfs j).valid ≡ false
    untouched : (j : ℕ) → i ≤ j → (u.vrfs j).valid ≡ (w.vrfs j).valid
    started : Started i t u

  -- The element `i` is done.
  abbrev entering : ℕ → env.rib.Tbl → env.fib.Fib → World env → World env
  entering i r fib u =
      set_dp (record (vrf_zero i u) { rib = r }) i (record ((vrf_zero i u).vrfs i).dp { fib = fib })

  module _ (e : Enough) where
    entered :
        (i : ℕ) (t : Option env.rib.Tbl) (r : env.rib.Tbl) (fib : env.fib.Fib) (w u : World env)
        → Progress i t w u
        → ((k : RibKey) → env.rib.lookup r k ≡ none)
        → Progress (i + 1) (some r) w (entering i r fib u)
    entered i t r fib w u p empty = record {
      fb = p.fb;
      fib_res = p.fib_res;
      neighs = p.neighs;
      vrf_n = p.vrf_n;
      cleared = λ j low. elim (ℕ_discrete j i) [
        | yes h ↦
            ap (λ (x : ℕ). ((entering i r fib u).vrfs x).valid) h
            ∙ ap (λ x. x.valid) (update_self (vrf_zero i u).vrfs i _)
            ∙ ap (λ x. x.valid) (update_self u.vrfs i _)
        | no ne ↦
            ap (λ x. x.valid) (update_ne (vrf_zero i u).vrfs i j _ ne)
            ∙ ap (λ x. x.valid) (update_ne u.vrfs i j _ ne)
            ∙ p.cleared j (omega (arith, ne))
      ];
      untouched = λ j above.
          ap (λ x. x.valid) (update_ne (vrf_zero i u).vrfs i j _ (omega arith))
          ∙ ap (λ x. x.valid) (update_ne u.vrfs i j _ (omega arith))
          ∙ p.untouched j (omega arith);
      started = (refl, empty);
    }

    step-Progress :
        (i : ℕ) (bh : ℤ) (t : Option env.rib.Tbl) (w u : World env)
        → Progress i t w u
        → Returns (λ t' u'. Progress (i + 1) t' w u') (ntb_vrf_route_init s i bh t (vrf_zero i u))
    unfolding ntb_vrf_route_init
    step-Progress i bh none w u p =
        let (fib, at) = e.has_fib ((vrf_zero i u).vrfs i).dp.vrf_id bh in
        rw (e.has_rib, ntb_vrf_route_init)
          (rw (at, ntb_vrf_route_init)
            (entered i none e.rib fib w u p (λ k. s.rib-lookup e.rib k e.has_rib)))
    step-Progress i bh (some r) w u p =
        let (fib, at) = e.has_fib ((vrf_zero i u).vrfs i).dp.vrf_id bh in
        rw (at, ntb_vrf_route_init) (entered i (some r) r fib w u p p.started.1)

    vrfs_init-Progress :
        (n i : ℕ) (bh : ℤ) (t : Option env.rib.Tbl) (w u : World env)
        → Progress i t w u
        → Returns (λ t' u'. Progress (i + n) t' w u') (vrfs_init s n i bh t u)
    unfolding vrfs_init
    vrfs_init-Progress zero i bh t w u p = rw (add_zero i) p
    vrfs_init-Progress (suc n) i bh t w u p =
        Returns-follow (λ t' u'. Progress (i + 1) t' w u') _
          (ntb_vrf_route_init s i bh t (vrf_zero i u)) (λ t'. vrfs_init s n (i + 1) bh t')
          (step-Progress i bh t w u p)
          (λ t' u' p'. rw (add_suc i n) (vrfs_init-Progress n (i + 1) bh t' w u' p'))

    -- The results before the loop: one of them rejects, and none has a path.
    abbrev marked : World env → World env
    marked w = record w {
      fb = env.fb.set_used e.arr e.bh;
      fib_res = update s.elements e.bh (fib_res_set_flags (s.elements e.bh) frf_reject);
    }

    marked-mpath : (w : World env) (i : ℕ) → ((marked w).fib_res i).mpath ≡ none ∷ []
    marked-mpath w i = elim (ℕ_discrete i e.bh) [
      | yes h ↦
          ap (λ (x : ℕ). ((marked w).fib_res x).mpath) h
          ∙ ap (λ x. x.mpath) (update_self s.elements e.bh _)
          ∙ flags-mpath (s.elements e.bh)
          ∙ ap (λ x. x.mpath) (s.elements_zero e.bh)
      | no ne ↦
          ap (λ x. x.mpath) (update_ne s.elements e.bh i _ ne)
          ∙ ap (λ x. x.mpath) (s.elements_zero i)
    ]

    Progress-Blank :
        (t : Option env.rib.Tbl) (w u : World env)
        → Progress ntb_nr_vrf t (marked w) u
        → Returns (λ _ u'. Blank w u') (ntb_nhop_init s u)
    unfolding ntb_nhop_init
    Progress-Blank none w u p = absurd (omega (arith, p.started))
    Progress-Blank (some r) w u p =
        rw (e.has_nhop, ntb_nhop_init)
          (record {
            paths =
                λ i q h. no_path q (sym (ap (λ g. (g i).mpath) p.fib_res ∙ marked-mpath w i) ∙ h);
            rib = λ k. ap (λ x. env.rib.lookup x k) p.started.0 ∙ p.started.1 k;
            nhops = λ k. s.nhop-lookup e.nhop k e.has_nhop;
            neighs = p.neighs;
            vrf_n = p.vrf_n;
            cleared = p.cleared;
            untouched = p.untouched;
          })

    pub ntb_vrf_init-Blank :
        (w : World env) → Returns (λ ret u. (ret ≡ pos 0) × Blank w u) (ntb_vrf_init s w)
    unfolding ntb_vrf_init blackhole_init
    ntb_vrf_init-Blank w =
        rw (e.fbarray, ntb_vrf_init)
          (rw (e.free, blackhole_init)
            (Returns-follow (λ t u. Progress (0 + ntb_nr_vrf) t (marked w) u) _
              (vrfs_init s ntb_nr_vrf 0 (pos e.bh) none (marked w))
              (λ _. ntb_nhop_init s >> pure (pos 0))
              (vrfs_init-Progress ntb_nr_vrf 0 (pos e.bh) none (marked w) (marked w) (record {
                fb = refl;
                fib_res = refl;
                neighs = refl;
                vrf_n = refl;
                cleared = λ j low. absurd (omega arith);
                untouched = λ j above. refl;
                started = refl;
              }))
              (λ t u p.
                Returns-follow (λ _ u'. Blank w u') _ (ntb_nhop_init s u) (λ _. pure (pos 0))
                  (Progress-Blank t w u p) (λ _ u' b. (refl, b)))))
