-- ===== src/Setup/Ready.antt =====
-- The state after the set-up, against the invariants.
use tao_p4code.Base.{
  ℕ, ℤ, pos, zero, suc, ◌+◌, ◌<◌, ◌^◌, ◌≡◌, refl, sym, ap, ◌∙◌, false, none, List, length, arith,
  is_neg, if◌then◌else◌,
}
use native.Mathlib.Decide.{dec_lt}
use mathlib.Core.Path.{fun_ext, subst}
use tao_p4code.Types.{TunnelMapKey, ntb_nr_vrf}
use tao_p4code.World.{Env, World, Vrf, fault, M, pure, ◌>>=◌, Returns, Returns-follow}
use tao_p4code.Route.Rib.{no_extra, IsRib, view, view-none}
use tao_p4code.Route.Rib.Refine.{Routes, RouteOp}
use tao_p4code.Route.Rib.History.{History, run_ops, run_ops-History}
use tao_p4code.Vrf.Table.Invariant.{IsTable, count_valid}
use tao_p4code.Setup.{Setup, ntb_vrf_init, ntb_tunnel_map_vrf_init, ntb_neigh_init, dp_tables_init}
use tao_p4code.Setup.Fresh.{Enough, Blank, ntb_vrf_init-Blank}

abbrev pub no_routes : Routes
no_routes k = none

module _ {env : Env} where
  -- The program has started: its variables are 0, and it has allocated no neighbour.
  pub record IsBoot (w : World env) : Type 0 where
    pub vrf_n : w.vrf_n ≡ pos 0
    pub valid : (j : ℕ) → (w.vrfs j).valid ≡ false
    pub neighs : (p : ℕ) → w.neighs p ≡ none

  pub record IsFresh (u : World env) : Type 0 where
    pub rib : IsRib 0 no_extra u
    pub table : IsTable u
    pub routes : view u ≡ no_routes
    pub tunnels : (k : TunnelMapKey) → env.tunnel.lookup u.tunnel_tbl k ≡ none

  count_valid-none :
      (vrfs : ℕ → Vrf env) (n : ℕ)
      → ((j : ℕ) → j < n → (vrfs j).valid ≡ false)
      → count_valid vrfs n ≡ 0
  unfolding count_valid
  count_valid-none vrfs zero off = refl
  count_valid-none vrfs (suc n) off =
      rw (off n (omega arith), count_valid-none vrfs n (λ j low. off j (omega arith))) refl

  not_valid : (w u : World env) → IsBoot w → Blank w u → (j : ℕ) → (u.vrfs j).valid ≡ false
  not_valid w u boot b j = elim (dec_lt j ntb_nr_vrf) [
    | yes low ↦ b.cleared j low
    | no above ↦ b.untouched j (omega (arith, above)) ∙ boot.valid j
  ]

  module _ (s : Setup env) (e : Enough s) (w : World env) (boot : IsBoot w) where
    -- The state of ntb_vrf_init with the tables of the tunnels and of the neighbours.
    abbrev whole : World env → World env
    whole u = record u { tunnel_tbl = e.tunnel; neigh_tbl = e.neigh }

    whole-IsFresh : (u : World env) → Blank w u → IsFresh (whole u)
    whole-IsFresh u b = record {
      rib = record {
        both = (
          record {
            live = λ k p at. let gone = b.nhops k in absurd (cc);
            apart = λ j k p at at'. let gone = b.nhops j in absurd (cc);
          },
          record {
            live = λ k p at. let gone = s.neigh-lookup e.neigh k e.has_neigh in absurd (cc);
            apart = λ j k p at at'. let gone = s.neigh-lookup e.neigh j e.has_neigh in absurd (cc);
          },
        );
        most =
            λ p n at. let gone = boot.neighs p in let same = ap (λ g. g p) b.neighs in absurd (cc);
        held = λ p i low taken path. absurd (b.paths i p path);
        counted = λ k p n at live. let gone = b.nhops k in absurd (cc);
        routed = λ k z at. let gone = b.rib k in absurd (cc);
        apart = λ j k id at at'. let gone = b.rib j in absurd (cc);
      };
      table = record {
        apart = λ i j low low' on on' same. let off = not_valid w u boot b i in absurd (cc);
        fits = λ i on. let off = not_valid w u boot b i in absurd (cc);
        counted =
            b.vrf_n
            ∙ boot.vrf_n
            ∙ ap pos (sym (count_valid-none u.vrfs ntb_nr_vrf (λ j low. b.cleared j low)));
      };
      routes = fun_ext λ k. view-none (whole u) k (b.rib k);
      tunnels = λ k. s.tunnel-lookup e.tunnel k e.has_tunnel;
    }

    rest : ℤ → M env ℤ
    unfolding dp_tables_init
    rest ret = if is_neg ret then (λ w. fault) else do
      ret ← ntb_tunnel_map_vrf_init s
      if is_neg ret
          then (λ w. fault)
          else do ret ← ntb_neigh_init s; if is_neg ret then (λ w. fault) else pure (pos 0)

    rest-IsFresh :
        (u : World env) → Blank w u → Returns (λ ret x. (ret ≡ pos 0) × IsFresh x) (rest (pos 0) u)
    unfolding rest ntb_tunnel_map_vrf_init ntb_neigh_init
    rest-IsFresh u b =
        rw (e.has_tunnel, ntb_tunnel_map_vrf_init)
          (rw (e.has_neigh, ntb_neigh_init) (refl, whole-IsFresh u b))

    -- Where the program has just started, its variables 0 and no neighbour allocated, every
    -- table can be made and the array of results has a free element, the table set-up of
    -- ntb_dp_init returns 0, and then the invariants of the routes and of the array of VRFs
    -- hold, no prefix has a route, and the table of tunnels is empty.
    pub dp_tables_init-IsFresh : Returns (λ ret x. (ret ≡ pos 0) × IsFresh x) (dp_tables_init s w)
    unfolding dp_tables_init rest
    dp_tables_init-IsFresh =
        Returns-follow (λ ret u. (ret ≡ pos 0) × Blank w u) _ (ntb_vrf_init s w) rest
          (ntb_vrf_init-Blank s e w) (λ ret u (zero_ret, b). rw zero_ret (rest-IsFresh u b))

    -- Where the program has just started, its variables 0 and no neighbour allocated, every
    -- table can be made and the array of results has a free element: the table set-up of
    -- ntb_dp_init and after it any list of fewer than 2 ^ 32 operations, each the insertion of a
    -- next hop into a route of type RT_DEFAULT, the deletion of one, or the deletion of a route,
    -- all return, provided that the array has fewer than 2 ^ 32 - 1 elements. The invariant of
    -- the routes holds at the end with no neighbour counter above the number of operations, and
    -- the results and the routes in the RIB are those of a history of the abstract operations
    -- that starts from the map without routes.
    pub dp_tables_init-History :
        (ops : List (ℕ × RouteOp))
        → env.fb.len + 1 < 2 ^ 32
        → length ops < 2 ^ 32
        → Returns
            (λ rets x. IsRib (length ops) no_extra x × History ops no_routes rets (view x))
            ((dp_tables_init s >>= λ _. run_ops ops) w)
    dp_tables_init-History ops room small =
        Returns-follow (λ ret x. (ret ≡ pos 0) × IsFresh x) _ (dp_tables_init s w)
          (λ _. run_ops ops) dp_tables_init-IsFresh
          (λ ret u (zero_ret, f).
            let same : 0 + length ops ≡ length ops = omega arith in
            subst
              (λ m.
                Returns (λ rets x. IsRib (length ops) no_extra x × History ops m rets (view x))
                  (run_ops ops u))
              f.routes
              (subst
                (λ n.
                  Returns (λ rets x. IsRib n no_extra x × History ops (view u) rets (view x))
                    (run_ops ops u))
                same (run_ops-History ops 0 u f.rib room (omega (arith, small)))))
