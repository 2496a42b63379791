-- ===== src/World.antt =====
-- The state of the agent: the global tables and counters of agent/vrf.c, agent/neigh.c,
-- agent/route.c and agent/tunnel_map.c, the objects that it has allocated, and the switch. A pointer
-- to an object is its address; a pointer into `g_ntb_vrfs` is the index of the element.
pub mod Kept
use tao_p4code.Base.{
  ℕ, ℤ, pos, ◌≡◌, ap, Bool, Option, none, some, List, if◌then◌else◌, update, is_zero,
}
use tao_p4code.Types.{
  Mac, RibKey, NhopEncapData, FibNhop, FibRes, NeighKey, NeighEntry, TunnelMapKey, NtbTunnelInfo,
}
use tao_p4code.Dpdk.{Table, FbArray, FibTable, Hal, HalReq}
use tao_p4code.Errno.{ntb_err_code, ntb_load_to_p4_fail}

-- The tables of the agent, the allocator and the driver. `zmalloc` returns an address at which no
-- object lives, or `none` where it is out of memory; `be_to_cpu` and `cpu_to_be_16` are
-- `rte_be_to_cpu_32` and `rte_cpu_to_be_16`.
pub record Env : Type 1 where
  pub rib : Table RibKey ℤ
  pub nhop : Table NhopEncapData ℕ
  pub neigh : Table NeighKey ℕ
  pub tunnel : Table TunnelMapKey ℕ
  pub fb : FbArray
  pub fib : FibTable
  pub hal : Hal
  pub zmalloc : {A : Type 0} → (ℕ → Option A) → Option ℕ
  pub zmalloc_fresh :
      {A : Type 0} (heap : ℕ → Option A) (p : ℕ) → zmalloc heap ≡ some p → heap p ≡ none
  pub be_to_cpu : ℕ → ℕ
  pub cpu_to_be_16 : ℕ → ℕ

-- `vrf_dp_t`. The fields `rib` and `fib_res_array` point to the same table and array in every VRF:
-- these stand in `World`. `tunnel_rmap` is the list of its tunnels, the first one first.
pub record VrfDp (env : Env) : Type 0 where
  pub fib : env.fib.Fib
  pub rib_cnt : ℤ
  pub tunnel_rmap : List ℕ
  pub tunnel_cnt : ℕ
  pub neigh_cnt : ℕ
  pub internal_ip : ℕ
  pub route_mac : Mac
  pub vrf_id : ℕ

-- `ntb_vrf_t`: the bytes of `name` before the first NUL, `valid`, `dp`.
pub record Vrf (env : Env) : Type 0 where
  pub name : List ℕ
  pub valid : Bool
  pub dp : VrfDp env

pub record World (env : Env) : Type 0 where
  pub vrfs : ℕ → Vrf env
  pub vrf_n : ℤ
  pub fake_mac : Mac
  pub def_gw_mac : Mac
  pub rib : env.rib.Tbl
  pub fb : env.fb.Arr
  pub fib_res : ℕ → FibRes
  pub nhop_tbl : env.nhop.Tbl
  pub nhops : ℕ → Option FibNhop
  pub neigh_tbl : env.neigh.Tbl
  pub neighs : ℕ → Option NeighEntry
  pub neigh_count : ℕ
  pub tunnel_tbl : env.tunnel.Tbl
  pub tunnels : ℕ → Option NtbTunnelInfo
  pub hw : env.hal.Hw

-- A run returns, or faults: it reads or writes through NULL, through a pointer to a freed object,
-- or beyond the bounds of an array.
pub data Run {ℓ} (A : Type ℓ) : Type ℓ where
  ok : A → Run A
  fault : Run A

abbrev pub M : Env → Type 0 → Type 0
M env A = World env → Run (A × World env)

module _ {env : Env} where
  abbrev pub pure : {A : Type 0} → A → M env A
  pure a w = ok (a, w)

  infixl 5 ◌>>=◌ ◌>>◌
  abbrev pub ◌>>=◌ : {A B : Type 0} → M env A → (A → M env B) → M env B
  ◌>>=◌ m f w = elim (m w) [ fault ↦ fault | ok (a, w') ↦ f a w' ]

  abbrev pub ◌>>◌ : {B : Type 0} → M env (Unit {0}) → M env B → M env B
  m >> k = m >>= λ _. k

  abbrev pub get : M env (World env)
  get w = ok (w, w)

  abbrev pub put : World env → M env (Unit {0})
  put w' w = ok (tt, w')

  -- A pointer into a heap is followed.
  abbrev pub deref : {A : Type 0} → Option A → M env A
  deref none w = fault
  deref (some a) w = ok (a, w)

  abbrev pub set_dp : World env → ℕ → VrfDp env → World env
  set_dp w v d = record w { vrfs = update w.vrfs v (record (w.vrfs v) { dp = d }) }

  -- The `_shc_hal_*` functions: a request to the driver; a status other than 0 becomes
  -- NTB_LOAD_TO_P4_FAIL.
  unfoldable pub shc_hal_call : World env → HalReq → ℤ × World env
  shc_hal_call w r =
      let (status, hw) = env.hal.call r w.hw in
      (if is_zero status then pos 0 else ntb_err_code ntb_load_to_p4_fail, record w { hw = hw })

  -- A run that returns, with a value and a state that `P` describes.
  abbrev pub Returns : {A : Type 0} → (A → World env → Type 0) → Run (A × World env) → Type 0
  Returns P (ok (a, w)) = P a w
  Returns P fault = ⊥

  -- What follows a call, in terms of what the call returns.
  abbrev pub follow : {A B : Type 0} → Run (A × World env) → (A → M env B) → Run (B × World env)
  follow r f = elim r [ fault ↦ fault | ok (a, w') ↦ f a w' ]

  pub Returns-follow :
      {A B : Type 0} (P : A → World env → Type 0) (Q : B → World env → Type 0)
      (r : Run (A × World env)) (f : A → M env B)
      → Returns P r
      → ((a : A) (w : World env) → P a w → Returns Q (f a w))
      → Returns Q (follow r f)
  Returns-follow P Q (ok (a, w)) f h next = next a w h
  Returns-follow P Q fault f h next = absurd h

  pub Returns-mono :
      {A : Type 0} (P Q : A → World env → Type 0) (r : Run (A × World env))
      → Returns P r
      → ((a : A) (w : World env) → P a w → Q a w)
      → Returns Q r
  Returns-mono P Q (ok (a, w)) h weaken = weaken a w h
  Returns-mono P Q fault h weaken = absurd h

  -- Two facts about the same run.
  pub Returns-and :
      {A : Type 0} (P Q : A → World env → Type 0) (r : Run (A × World env))
      → Returns P r
      → Returns Q r
      → Returns (λ a w. P a w × Q a w) r
  Returns-and P Q (ok (a, w)) h k = (h, k)
  Returns-and P Q fault h k = absurd h

  -- A sequence whose first part returns.
  pub bind :
      {A B : Type 0} {w u : World env} {a : A} (m : M env A) (f : A → M env B)
      → m w ≡ ok (a, u)
      → (m >>= f) w ≡ f a u
  bind {w = w} m f e = ap (λ r. follow r f) e
