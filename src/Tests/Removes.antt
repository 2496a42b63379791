-- ===== src/Tests/Removes.antt =====
-- The results on the deletion of a VRF, at concrete inputs.

use mathlib.Core.Bool.{false≢true}
use tao_p4code.Base.{
  ℕ, zero, suc, ◌<◌, pos, ◌≡◌, refl, sym, ap, ◌∙◌, arith, none, some, [], ◌∷◌, true, false, length,
}
use tao_p4code.Base.Count.{count_below}
use tao_p4code.Types.{zero_mac, zero_ntb_tunnel_info, ntb_vrf_name_len}
use tao_p4code.World.{World, Vrf, Returns}
use tao_p4code.Route.Rib.{no_extra, IsRib}
use tao_p4code.Vrf.Table.{ntb_vrf_lookup, find_vrf}
use tao_p4code.Vrf.Table.Invariant.{IsTable, count_valid}
use tao_p4code.Route.Lookup.{ntb_route_cleanup}
use tao_p4code.Route.Lookup.Emptied.{Emptied, ntb_route_cleanup-Emptied}
use tao_p4code.Vrf.Remove.{ntb_vrf_del}
use tao_p4code.Vrf.Remove.Deleted.{VrfDeleted, ntb_vrf_del-VrfDeleted}
use tao_p4code.Demo.{a_prefix}
use tao_p4code.Demo.Slot.{slot_env, slot_walks, slot_key}
use tao_p4code.Tests.{one_nhop-NhopSound, one_neigh-NeighSound}
use tao_p4code.Tests.Ribs.{a_route, a_route-IsRib}
use tao_p4code.Tests.Vrfs.{one_tunnel}

-- The VRF "a", of the id 1, and nothing behind it.
abbrev pub vrf_a : ℕ → Vrf slot_env
vrf_a zero = record {
  name = 97 ∷ [];
  valid = true;
  dp = record {
    fib = λ p l. none;
    rib_cnt = pos 1;
    tunnel_rmap = 1 ∷ [];
    tunnel_cnt = 1;
    neigh_cnt = 1;
    internal_ip = 5;
    route_mac = zero_mac;
    vrf_id = 1;
  };
}
vrf_a (suc i) = record {
  name = [];
  valid = false;
  dp = record {
    fib = λ p l. none;
    rib_cnt = pos 0;
    tunnel_rmap = [];
    tunnel_cnt = 0;
    neigh_cnt = 0;
    internal_ip = 0;
    route_mac = zero_mac;
    vrf_id = suc (suc i);
  };
}

-- It has one route and one tunnel.
abbrev full_vrf : World slot_env
full_vrf = record {
  vrfs = vrf_a;
  vrf_n = pos 1;
  fake_mac = a_route.fake_mac;
  def_gw_mac = a_route.def_gw_mac;
  rib = some (a_prefix, pos 1);
  fb = a_route.fb;
  fib_res = a_route.fib_res;
  nhop_tbl = a_route.nhop_tbl;
  nhops = a_route.nhops;
  neigh_tbl = a_route.neigh_tbl;
  neighs = a_route.neighs;
  neigh_count = a_route.neigh_count;
  tunnel_tbl = one_tunnel.tunnel_tbl;
  tunnels = one_tunnel.tunnels;
  hw = [];
}

find_full : ntb_vrf_lookup full_vrf (97 ∷ []) ≡ some 0
unfolding ntb_vrf_lookup find_vrf
find_full = refl

full_vrf-only : (i : ℕ) → (full_vrf.vrfs i).valid ≡ true → i ≡ 0
full_vrf-only zero on = refl
full_vrf-only (suc i) on = absurd (false≢true on)

full_vrf-count : (n : ℕ) → count_valid full_vrf.vrfs (suc n) ≡ 1
unfolding count_valid
full_vrf-count zero = refl
full_vrf-count (suc n) = omega (arith, full_vrf-count n)

a_fits : (i : ℕ) → (vrf_a i).valid ≡ true → length (vrf_a i).name < ntb_vrf_name_len
a_fits zero on = omega arith
a_fits (suc i) on = absurd (false≢true on)

full_vrf-IsTable : IsTable full_vrf
full_vrf-IsTable = record {
  apart = λ i j hi hj oi oj same. full_vrf-only i oi ∙ sym (full_vrf-only j oj);
  fits = a_fits;
  counted = ap pos (sym (full_vrf-count 4095));
}

full_vrf-IsRib : IsRib 1 no_extra full_vrf
unfolding count_below
full_vrf-IsRib = record {
  both = (
    record { live = one_nhop-NhopSound.live; apart = one_nhop-NhopSound.apart },
    record { live = one_neigh-NeighSound.live; apart = one_neigh-NeighSound.apart },
  );
  most = a_route-IsRib.most;
  held = a_route-IsRib.held;
  counted = a_route-IsRib.counted;
  routed = λ k z e.
      let (key, one) = slot_key a_prefix k (pos 1) z e in
      record {
        id = 1;
        at = 1;
        is = sym one;
        low = omega arith;
        taken = refl;
        path = refl;
        plain = record { count = refl; room = refl; unicast = refl };
      };
  apart = λ j k id e f.
      (slot_key a_prefix j (pos 1) (pos id) e).0 ∙ sym (slot_key a_prefix k (pos 1) (pos id) f).0;
}

ntb_vrf_del-VrfDeleted_example :
    Returns
      (λ ret u. (ret ≡ pos 0) × VrfDeleted slot_walks 1 0 (97 ∷ []) full_vrf u)
      (ntb_vrf_del (97 ∷ []) full_vrf)
ntb_vrf_del-VrfDeleted_example =
    ntb_vrf_del-VrfDeleted slot_walks 1 0 (97 ∷ []) full_vrf full_vrf-IsRib full_vrf-IsTable
      find_full ((record zero_ntb_tunnel_info { vrf_id = 1 }, refl), tt, tt)

ntb_route_cleanup-Emptied_example :
    Returns (λ ret u. (ret ≡ pos 0) × Emptied 1 1 full_vrf u) (ntb_route_cleanup 0 full_vrf)
ntb_route_cleanup-Emptied_example =
    ntb_route_cleanup-Emptied slot_walks 1 0 1 full_vrf full_vrf-IsRib refl
