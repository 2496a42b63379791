-- ===== src/Setup.antt =====
-- The set-up of the tables: ntb_vrf_init of agent/vrf.c, ntb_nhop_init and ntb_vrf_route_init of
-- agent/route.c, ntb_tunnel_map_vrf_init of agent/tunnel_map.c and ntb_neigh_init of agent/neigh.c,
-- in the order of ntb_dp_init of agent/pmd.c. A table that cannot be made fails an assertion of the
-- code, or is NULL afterwards: the outcome is `fault`.
pub mod Fresh
pub mod Ready
use tao_p4code.Base.{
  ℕ, ℤ, pos, zero, suc, ◌+◌, ◌≡◌, Bool, false, is_neg, if◌then◌else◌, Option, none, some, [], ◌∷◌,
  update,
}
use tao_p4code.Types.{
  RibKey, NhopEncapData, NeighKey, TunnelMapKey, FibRes, fib_res_set_flags, frf_reject, ntb_nr_vrf,
  zero_mac,
}
use tao_p4code.World.{Env, World, fault, ok, M, pure, ◌>>=◌, ◌>>◌, set_dp}

-- An element of the array of results before its first use: its bytes are 0.
abbrev pub zero_fib_res : FibRes
zero_fib_res = record {
  f_res_oid = 0;
  fr_flags = 0;
  mpath_cnt = 0;
  mpath_max = 0;
  mpath = none ∷ [];
}

-- What the libraries give: `rte_fbarray_init`, whose memory is 0, `rte_hash_create` with
-- `rte_hash_reset` for each of the four tables, and `rte_fib_create` (by the number in the name of
-- the FIB, and its default next hop); `none` where there is no memory.
pub record Setup (env : Env) : Type 0 where
  pub fbarray : Option env.fb.Arr
  pub elements : ℕ → FibRes
  pub rib : Option env.rib.Tbl
  pub nhop : Option env.nhop.Tbl
  pub neigh : Option env.neigh.Tbl
  pub tunnel : Option env.tunnel.Tbl
  pub fib : ℕ → ℤ → Option env.fib.Fib
  pub fbarray-used : (a : env.fb.Arr) (i : ℕ) → fbarray ≡ some a → env.fb.used a i ≡ false
  pub elements_zero : (i : ℕ) → elements i ≡ zero_fib_res
  pub rib-lookup : (t : env.rib.Tbl) (k : RibKey) → rib ≡ some t → env.rib.lookup t k ≡ none
  pub nhop-lookup :
      (t : env.nhop.Tbl) (k : NhopEncapData) → nhop ≡ some t → env.nhop.lookup t k ≡ none
  pub neigh-lookup :
      (t : env.neigh.Tbl) (k : NeighKey) → neigh ≡ some t → env.neigh.lookup t k ≡ none
  pub tunnel-lookup :
      (t : env.tunnel.Tbl) (k : TunnelMapKey) → tunnel ≡ some t → env.tunnel.lookup t k ≡ none

module _ {env : Env} where
  -- The element `i` of the array of VRFs after `memset`, with its id. Its pointer to a FIB, which is
  -- NULL then, is written by the next call.
  abbrev pub vrf_zero : ℕ → World env → World env
  vrf_zero i w = record w {
    vrfs = update w.vrfs i (record {
      name = [];
      valid = false;
      dp = record {
        fib = (w.vrfs i).dp.fib;
        rib_cnt = pos 0;
        tunnel_rmap = [];
        tunnel_cnt = 0;
        neigh_cnt = 0;
        internal_ip = 0;
        route_mac = zero_mac;
        vrf_id = i + 1;
      };
    });
  }

-- The functions of the end of the process: they free nothing.
abbrev pub ntb_vrf_deinit : ℤ
ntb_vrf_deinit = pos 0

abbrev pub ntb_tunnel_map_vrf_deinit : ℤ
ntb_tunnel_map_vrf_deinit = pos 0

abbrev pub ntb_neigh_deinit : ℤ
ntb_neigh_deinit = pos 0

module _ {env : Env} (s : Setup env) where
  -- The table of next hops.
  pub ntb_nhop_init : M env (Unit {0})
  ntb_nhop_init w = elim s.nhop [ none ↦ fault | some t ↦ ok (tt, record w { nhop_tbl = t }) ]

  -- The static variable of ntb_vrf_route_init: the RIB is made by the first call.
  abbrev pub first_rib : Option env.rib.Tbl → Option env.rib.Tbl
  first_rib none = s.rib
  first_rib (some t) = some t

  -- The VRF gets the RIB and a FIB. The result is the static variable.
  pub ntb_vrf_route_init : ℕ → ℤ → Option env.rib.Tbl → M env (Option env.rib.Tbl)
  ntb_vrf_route_init i f_res_bh ntb_rib_hash_tbl w = elim (first_rib ntb_rib_hash_tbl) [
    | none ↦ fault
    | some t ↦ elim (s.fib (w.vrfs i).dp.vrf_id f_res_bh) [
      | none ↦ fault
      | some fib ↦ ok (some t, set_dp (record w { rib = t }) i (record (w.vrfs i).dp { fib = fib }))
    ]
  ]

  -- The loop of ntb_vrf_init over `n` elements from `i` on.
  pub vrfs_init : ℕ → ℕ → ℤ → Option env.rib.Tbl → M env (Option env.rib.Tbl)
  unfolding ntb_vrf_route_init
  vrfs_init zero i f_res_bh t w = ok (t, w)
  vrfs_init (suc n) i f_res_bh t w =
      (ntb_vrf_route_init i f_res_bh t >>= λ t'. vrfs_init n (i + 1) f_res_bh t') (vrf_zero i w)

  -- The result that rejects is the first free element; then come the VRFs and the next hops.
  pub blackhole_init : M env ℤ
  unfolding vrfs_init ntb_nhop_init
  blackhole_init w = elim (env.fb.find_next_free w.fb) [
    | none ↦ fault
    | some bh ↦
        (vrfs_init ntb_nr_vrf 0 (pos bh) none >>= λ _. ntb_nhop_init >> pure (pos 0)) (record w {
          fb = env.fb.set_used w.fb bh;
          fib_res = update w.fib_res bh (fib_res_set_flags (w.fib_res bh) frf_reject);
        })
  ]

  pub ntb_vrf_init : M env ℤ
  unfolding blackhole_init
  ntb_vrf_init w = elim s.fbarray [
    | none ↦ fault
    | some a ↦ blackhole_init (record w { fb = a; fib_res = s.elements })
  ]

  pub ntb_tunnel_map_vrf_init : M env ℤ
  ntb_tunnel_map_vrf_init w = elim s.tunnel [
    | none ↦ fault
    | some t ↦ ok (pos 0, record w { tunnel_tbl = t })
  ]

  pub ntb_neigh_init : M env ℤ
  ntb_neigh_init w = elim s.neigh [ none ↦ fault | some t ↦ ok (pos 0, record w { neigh_tbl = t }) ]

  -- The calls of ntb_dp_init that make the tables. A negative result would end the process.
  pub dp_tables_init : M env ℤ
  unfolding ntb_vrf_init ntb_tunnel_map_vrf_init ntb_neigh_init
  dp_tables_init = do
    ret ← ntb_vrf_init
    if is_neg ret then (λ w. fault) else do
      ret ← ntb_tunnel_map_vrf_init
      if is_neg ret
          then (λ w. fault)
          else do ret ← ntb_neigh_init; if is_neg ret then (λ w. fault) else pure (pos 0)
