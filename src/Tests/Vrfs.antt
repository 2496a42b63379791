-- ===== src/Tests/Vrfs.antt =====
-- The results on VRFs and on the tunnels that lead to them, at concrete inputs.
use tao_p4code.Base.{
  ℕ, suc, ◌≡◌, ◌↔◌, pos, is_zero, true, none, some, [], ◌∷◌, arith, refl, if◌then◌else◌, ltb, ◌&&◌,
  update, zero, sym, ap, ◌≢◌,
}
use tao_p4code.Types.{tunnel_vxlan, zero_ntb_tunnel_info, ntb_nr_vrf}
use tao_p4code.Errno.{ntb_err_code, ntb_vrf_noent, ntb_tunnel_inused}
use tao_p4code.World.{World, ok, fault, Returns}
use tao_p4code.Vrf.Table.{
  ntb_vrf_add, ntb_vrf_lookup, ntb_vrf_intip_set, ntb_vrf_intip_get, ntb_vrf_rmac_set,
  ntb_vrf_rmac_get, ntb_vrf_get_by_id, find_vrf, scan_add,
}
use tao_p4code.Vrf.Table.Add.{Named, AllTaken, lookup-add, add-eq-noent}
use tao_p4code.Vrf.Table.Invariant.{IsTable, ntb_vrf_add-IsTable, count_valid}
use tao_p4code.Vrf.Table.Attributes.{intip_get-set, rmac_get-set, get_by_id-suc}
use tao_p4code.Tunnel.{
  map_key, ntb_tunnel_map_vrf, ntb_tunnel_map_vrf_lookup, ntb_tunnel_unmap_vrf, lookup_request,
}
use tao_p4code.Tunnel.Mapping.{map_vrf_lookup-map_vrf, map_vrf_again}
use tao_p4code.Tunnel.Dangling.{IsDangling, unmap_vrf-next, unmap_vrf-IsDangling}
use tao_p4code.Demo.{write_at, first_none, write_at_self, TunnelMapKey-discrete}
use mathlib.Core.Bool.{false≢true}
use tao_p4code.Demo.{demo_env, demo_dp, start}
use tao_p4code.Tests.{some_mac}

-- The first VRF is in use, under the name "a".
abbrev one_vrf : World demo_env
one_vrf = record start {
  vrfs = update start.vrfs 0 (record { name = 97 ∷ []; valid = true; dp = demo_dp 0 });
  vrf_n = pos 1;
}

find_a : ntb_vrf_lookup one_vrf (97 ∷ []) ≡ some 0
unfolding ntb_vrf_lookup find_vrf
find_a = refl

start-IsTable : IsTable start
unfolding count_valid
start-IsTable = record {
  apart = λ i j hi hj oi oj same. absurd (false≢true oi);
  fits = λ i on. absurd (false≢true on);
  counted = ap pos (sym (none_valid ntb_nr_vrf));
}
  where
    none_valid : (n : ℕ) → count_valid start.vrfs n ≡ 0
    none_valid zero = refl
    none_valid (suc n) = rw (none_valid n) refl

lookup-add_example :
    (i : ℕ) × (ntb_vrf_lookup (ntb_vrf_add start (97 ∷ [])).1 (97 ∷ []) ≡ some i)
    × Named (ntb_vrf_add start (97 ∷ [])).1 i (97 ∷ [])
unfolding ntb_vrf_add scan_add
lookup-add_example = lookup-add start (97 ∷ []) (omega arith) refl

add-eq-noent_example :
    (ntb_vrf_add one_vrf (97 ∷ []) ≡ (ntb_err_code ntb_vrf_noent, one_vrf))
    ↔ AllTaken one_vrf (97 ∷ [])
add-eq-noent_example = add-eq-noent one_vrf (97 ∷ [])

ntb_vrf_add-IsTable_example : IsTable (ntb_vrf_add start (97 ∷ [])).1
ntb_vrf_add-IsTable_example = ntb_vrf_add-IsTable start (97 ∷ []) start-IsTable (omega arith)

intip_get-set_example :
    let (ret, w) = ntb_vrf_intip_set one_vrf (97 ∷ []) 5 in
    ntb_vrf_intip_get w (97 ∷ []) ≡ (ret, (if is_zero ret then some 5 else none))
intip_get-set_example = intip_get-set one_vrf (97 ∷ []) 5

rmac_get-set_example :
    let (ret, w) = ntb_vrf_rmac_set one_vrf (97 ∷ []) some_mac in
    ntb_vrf_rmac_get w (97 ∷ []) ≡ (ret, (if is_zero ret then some some_mac else none))
rmac_get-set_example = rmac_get-set one_vrf (97 ∷ []) some_mac

get_by_id-suc_example :
    (ntb_vrf_get_by_id one_vrf 0 ≡ fault)
    × (ntb_vrf_get_by_id one_vrf 1
        ≡ ok (if ltb 0 ntb_nr_vrf && (one_vrf.vrfs 0).valid then some 0 else none))
get_by_id-suc_example = get_by_id-suc one_vrf 0 (omega arith)

-- The VXLAN tunnel 7 of the first VRF.
abbrev pub one_tunnel : World demo_env
one_tunnel = record one_vrf {
  vrfs = update one_vrf.vrfs 0 (record (one_vrf.vrfs 0) {
    dp = record (demo_dp 0) { tunnel_rmap = 1 ∷ []; tunnel_cnt = 1 };
  });
  tunnel_tbl = write_at TunnelMapKey-discrete start.tunnel_tbl (map_key tunnel_vxlan 7) (some 1);
  tunnels = update start.tunnels 1 (some (record zero_ntb_tunnel_info { vrf_id = 1 }));
}

find_a_tunnel : ntb_vrf_lookup one_tunnel (97 ∷ []) ≡ some 0
unfolding ntb_vrf_lookup find_vrf
find_a_tunnel = refl

at_7 : one_tunnel.tunnel_tbl (map_key tunnel_vxlan 7) ≡ some 1
at_7 = write_at_self TunnelMapKey-discrete start.tunnel_tbl (map_key tunnel_vxlan 7) (some 1)

map_vrf_lookup-map_vrf_example :
    (u : World demo_env) × (ntb_tunnel_map_vrf one_vrf (97 ∷ []) tunnel_vxlan 7 ≡ ok (pos 0, u))
    × ((u.vrfs 0).dp.tunnel_rmap ≡ 1 ∷ [])
    × (ntb_tunnel_map_vrf_lookup tunnel_vxlan 7 0 u
        ≡ ok (some 0, lookup_request u tunnel_vxlan 7 0 1))
unfolding first_none
map_vrf_lookup-map_vrf_example =
    map_vrf_lookup-map_vrf one_vrf (97 ∷ []) tunnel_vxlan 7 0 0 1 one_tunnel.tunnel_tbl find_a
      (omega arith) refl refl refl refl refl

map_vrf_again_example :
    ((ntb_tunnel_map_vrf one_tunnel (97 ∷ []) tunnel_vxlan 7 ≡ ok (pos 0, one_tunnel))
      ↔ ◌≡◌ {A = ℕ} 1 1)
    × ((ntb_tunnel_map_vrf one_tunnel (97 ∷ []) tunnel_vxlan 7
          ≡ ok (ntb_err_code ntb_tunnel_inused, one_tunnel))
        ↔ ◌≢◌ {A = ℕ} 1 1)
map_vrf_again_example =
    map_vrf_again one_tunnel (97 ∷ []) tunnel_vxlan 7 0 1
      (record zero_ntb_tunnel_info { vrf_id = 1 }) find_a_tunnel at_7 refl

unmap_vrf-IsDangling_example :
    Returns
      (λ ret u. (ret ≡ pos 0) × ((u.vrfs 0).dp.tunnel_rmap ≡ []) × IsDangling u tunnel_vxlan 7)
      (ntb_tunnel_unmap_vrf tunnel_vxlan 7 one_tunnel)
unmap_vrf-IsDangling_example =
    unmap_vrf-IsDangling one_tunnel tunnel_vxlan 7 1 0 (record zero_ntb_tunnel_info { vrf_id = 1 })
      [] at_7 refl refl (omega arith) refl refl

unmap_vrf-next_example :
    Returns
      (λ ret u.
        (ret ≡ pos 0)
        × (ntb_tunnel_map_vrf_lookup tunnel_vxlan 7 0 u ≡ fault)
        × (ntb_tunnel_unmap_vrf tunnel_vxlan 7 u ≡ fault))
      (ntb_tunnel_unmap_vrf tunnel_vxlan 7 one_tunnel)
unmap_vrf-next_example =
    unmap_vrf-next one_tunnel tunnel_vxlan 7 0 1 0 (record zero_ntb_tunnel_info { vrf_id = 1 }) []
      at_7 refl refl (omega arith) refl refl
