-- ===== src/Demo.antt =====
-- A concrete environment for the tests: tables that are functions and never full, an array of eight
-- results, an allocator that walks sixteen addresses, and a switch that accepts every request and
-- keeps a log of them, the last one first.
pub mod Mbufs
pub mod Slot
use native.Mathlib.Decide.{ℕ_discrete}
use mathlib.Core.Logic.{ite, if_pos, if_neg}
use mathlib.Core.Option.{some-injective}
use tao_p4code.Base.{
  negsuc, ℕ, zero, suc, ◌+◌, ◌<◌, ◌≤◌, ◌≡◌, ◌≢◌, refl, ℤ, pos, Bool, true, false, Option, none,
  some, List, [], ◌∷◌, arith, ◌==◌, update, ==_refl, ap, sym, ◌∙◌, inl, inr, Option-cases,
}
use tao_p4code.Types.{RibKey, TunnelMapKey, TunnelType, FibRes, zero_mac}
use tao_p4code.Dpdk.{Table, FbArray, FibTable, Hal, HalReq}
use tao_p4code.World.{Env, World, VrfDp}
use tao_p4code.Neigh.{init_mac}
use tao_p4code.Neigh.Safety.{NeighKey-discrete}
use tao_p4code.Route.Prefix.Write.{RibKey-discrete}
use tao_p4code.Route.Nhop.Safety.{NhopKey-discrete}

TunnelType-discrete : Discrete TunnelType
TunnelType-discrete = hlevel

pub TunnelMapKey-discrete : Discrete TunnelMapKey
TunnelMapKey-discrete = hlevel (ℕ_discrete, TunnelType-discrete)

pub none_ne_some : {A : Type 0} {a : A} → ◌≡◌ {A = Option A} none (some a) → ⊥
none_ne_some e = cc

-- A table that is a function.
module _ {K V : Type 0} (same : Discrete K) where
  abbrev pub write_at : (K → Option V) → K → Option V → K → Option V
  write_at t k v j = ite (same j k) v (t j)

  pub write_at_self : (t : K → Option V) (k : K) (v : Option V) → write_at t k v k ≡ v
  write_at_self t k v = if_pos (same k k) refl v (t k)

  pub write_at_ne : (t : K → Option V) (k j : K) (v : Option V) → j ≢ k → write_at t k v j ≡ t j
  write_at_ne t k j v ne = if_neg (same j k) ne v (t j)

  pub added :
      (t u : K → Option V) (k : K) (v : V)
      → some (write_at t k (some v)) ≡ some u
      → write_at t k (some v) ≡ u
  added t u k v e = some-injective _ u e

  pub added_self :
      (t u : K → Option V) (k : K) (v : V) → some (write_at t k (some v)) ≡ some u → u k ≡ some v
  added_self t u k v e = ap (λ f. f k) (sym (added t u k v e)) ∙ write_at_self t k (some v)

  pub added_ne :
      (t u : K → Option V) (k j : K) (v : V)
      → some (write_at t k (some v)) ≡ some u
      → j ≢ k
      → u j ≡ t j
  added_ne t u k j v e ne = ap (λ f. f j) (sym (added t u k v e)) ∙ write_at_ne t k j (some v) ne

  abbrev pub fun_table : Table K V
  fun_table = record {
    Tbl = K → Option V;
    entries = 0;
    lookup = λ t k. t k;
    add = λ t k v. some (write_at t k (some v));
    del = λ t k. write_at t k none;
    del_ret = λ t k. elim (t k) [ none ↦ negsuc 1 | some v ↦ pos 0 ];
    iterate = λ t i. none;
    lookup-add_self = added_self;
    lookup-add_ne = added_ne;
    lookup-del_self = λ t k. write_at_self t k none;
    iterate_bounds = λ t i j k v e. absurd (none_ne_some e);
    iterate-lookup = λ t i j k v e. absurd (none_ne_some e);
    lookup-del_ne = λ t k j ne. write_at_ne t k j none ne;
  }

-- The first of `n` addresses from `p` on at which nothing lives.
unfoldable pub first_none : {A : Type 0} → (ℕ → Option A) → ℕ → ℕ → Option ℕ
first_none h zero p = none
first_none h (suc n) p = elim (h p) [ none ↦ some p | some a ↦ first_none h n (p + 1) ]

pub first_none_fresh :
    {A : Type 0} (h : ℕ → Option A) (n p q : ℕ) → first_none h n p ≡ some q → h q ≡ none
unfolding first_none
first_none_fresh h zero p q e = absurd (none_ne_some e)
first_none_fresh h (suc n) p q e = elim (Option-cases (h p)) [
  | inl gone ↦ ground arith
  | inr (a, live) ↦ first_none_fresh h n (p + 1) q (ground arith)
]

-- The first of `n` elements from `i` on that is not in use.
unfoldable pub first_free : (ℕ → Bool) → ℕ → ℕ → Option ℕ
first_free a zero i = none
first_free a (suc n) i = elim (a i) [ false ↦ some i | true ↦ first_free a n (i + 1) ]

pub first_free_lem :
    (a : ℕ → Bool) (n i j : ℕ) → first_free a n i ≡ some j → (a j ≡ false) × (j < i + n)
unfolding first_free
first_free_lem a zero i j e = absurd (none_ne_some e)
first_free_lem a (suc n) i j e = ground (arith, first_free_lem a n (i + 1) j)

pub first_free_lt : (a : ℕ → Bool) (i : ℕ) → first_free a 8 0 ≡ some i → i < 8
first_free_lt a i e = omega (arith, (first_free_lem a 8 0 i e).1)

abbrev pub bit_array : FbArray
bit_array = record {
  Arr = ℕ → Bool;
  len = 8;
  used = λ a i. a i;
  find_next_free = λ a. first_free a 8 0;
  set_used = λ a i. update a i true;
  set_free = λ a i. update a i false;
  find_next_free-used = λ a i e. (first_free_lem a 8 0 i e).0;
  find_next_free-lt = first_free_lt;
  used-set_used = λ a i j. refl;
  used-set_free = λ a i j. refl;
}

-- Routes by address and length. A lookup finds host routes, and the element 0 elsewhere.
abbrev pub write_route : (ℕ → ℕ → Option ℤ) → ℕ → ℕ → Option ℤ → ℕ → ℕ → Option ℤ
write_route f p l nh = update f p (update (f p) l nh)

pub write_route_self :
    (f : ℕ → ℕ → Option ℤ) (p l : ℕ) (nh : Option ℤ) → write_route f p l nh p l ≡ nh
write_route_self f p l nh = ground (arith, ==_refl p, ==_refl l)

pub route_added :
    (f g : ℕ → ℕ → Option ℤ) (p l : ℕ) (nh : ℤ)
    → some (write_route f p l (some nh)) ≡ some g
    → g p l ≡ some nh
route_added f g p l nh e =
    ap (λ h. h p l) (sym (some-injective _ g e)) ∙ write_route_self f p l (some nh)

abbrev pub fun_fib : FibTable
fun_fib = record {
  Fib = ℕ → ℕ → Option ℤ;
  route = λ f p l. f p l;
  add = λ f p l nh. some (write_route f p l (some nh));
  delete = λ f p l. write_route f p l none;
  lookup = λ f p. elim (f p 32) [ none ↦ pos 0 | some nh ↦ nh ];
  route-add_self = route_added;
  route-delete_self = λ f p l. write_route_self f p l none;
}

abbrev pub log_hal : Hal
log_hal = record {
  Hw = List HalReq;
  call = λ r log. (pos 0, r ∷ log);
  nhop_alloc_oid = λ log. (pos 0, 100, log);
  neigh_alloc_oid = λ log. (pos 0, 200, log);
}

abbrev pub a_prefix : RibKey
a_prefix = record { vrf_id = 1; family = 2; prefixlen = 24; prefix4 = 6 }

-- The iteration over the RIB meets one prefix, if it is there.
abbrev pub one_entry : Option ℤ → Option (ℕ × RibKey × ℤ)
one_entry none = none
one_entry (some z) = some (1, a_prefix, z)

abbrev pub rib_iterate : (RibKey → Option ℤ) → ℕ → Option (ℕ × RibKey × ℤ)
rib_iterate t zero = one_entry (t a_prefix)
rib_iterate t (suc i) = none

entry_lem :
    (o : Option ℤ) (j : ℕ) (k : RibKey) (v : ℤ)
    → one_entry o ≡ some (j, k, v)
    → (j ≡ 1) × (k ≡ a_prefix) × (o ≡ some v)
entry_lem none j k v e = absurd (none_ne_some e)
entry_lem (some z) j k v e =
    let same = sym (some-injective _ (j, k, v) e) in
    (ap (λ r. r.0) same, ap (λ r. r.1) same, ap (λ r. some r.2) (sym same))

pub rib_iterate_bounds :
    (t : RibKey → Option ℤ) (i j : ℕ) (k : RibKey) (v : ℤ)
    → rib_iterate t i ≡ some (j, k, v)
    → (i < j) × (j ≤ 1)
rib_iterate_bounds t zero j k v e =
    let (one, key, at) = entry_lem (t a_prefix) j k v e in (omega arith, omega arith)
rib_iterate_bounds t (suc i) j k v e = absurd (none_ne_some e)

pub rib_iterate_entry :
    (t : RibKey → Option ℤ) (i j : ℕ) (k : RibKey) (v : ℤ)
    → rib_iterate t i ≡ some (j, k, v)
    → t k ≡ some v
rib_iterate_entry t zero j k v e =
    let (one, key, at) = entry_lem (t a_prefix) j k v e in ap t key ∙ at
rib_iterate_entry t (suc i) j k v e = absurd (none_ne_some e)

abbrev pub demo_env : Env
demo_env = record {
  rib = record (fun_table RibKey-discrete) {
    entries = 1;
    iterate = rib_iterate;
    iterate_bounds = rib_iterate_bounds;
    iterate-lookup = rib_iterate_entry;
  };
  nhop = fun_table NhopKey-discrete;
  neigh = fun_table NeighKey-discrete;
  tunnel = fun_table TunnelMapKey-discrete;
  fb = bit_array;
  fib = fun_fib;
  hal = log_hal;
  zmalloc = λ h. first_none h 16 1;
  zmalloc_fresh = λ h p. first_none_fresh h 16 1 p;
  be_to_cpu = λ a. a;
  cpu_to_be_16 = λ a. a;
}

abbrev pub demo_dp : ℕ → VrfDp demo_env
demo_dp i = record {
  fib = λ p l. none;
  rib_cnt = pos 0;
  tunnel_rmap = [];
  tunnel_cnt = 0;
  neigh_cnt = 0;
  internal_ip = 0;
  route_mac = zero_mac;
  vrf_id = suc i;
}

abbrev pub blackhole : FibRes
blackhole = record { f_res_oid = 0; fr_flags = 1; mpath_cnt = 0; mpath_max = 0; mpath = none ∷ [] }

-- The state after ntb_vrf_init: no VRF is in use, and the result 0 is the one that rejects.
abbrev pub start : World demo_env
start = record {
  vrfs = λ i. record { name = []; valid = false; dp = demo_dp i };
  vrf_n = pos 0;
  fake_mac = init_mac;
  def_gw_mac = init_mac;
  rib = λ k. none;
  fb = λ i. i == 0;
  fib_res = λ i. blackhole;
  nhop_tbl = λ k. none;
  nhops = λ p. none;
  neigh_tbl = λ k. none;
  neighs = λ p. none;
  neigh_count = 0;
  tunnel_tbl = λ k. none;
  tunnels = λ p. none;
  hw = [];
}
