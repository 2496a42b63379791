-- ===== src/World/Kept.antt =====
-- Runs that leave parts of the state alone where they return: of each VRF all but the FIB and the
-- counters, the tunnels, and the RIB.
use tao_p4code.Base.{ℕ, ◌≡◌, ap, ◌∙◌}
use tao_p4code.Types.{RibKey}
use tao_p4code.World.{Env, World, Run, ok, fault, M, Returns, follow}

module _ {env : Env} where
  -- `P` holds if the run returns.
  abbrev pub Partly : {A : Type 0} → (A → World env → Type 0) → Run (A × World env) → Type 0
  Partly P (ok (a, w)) = P a w
  Partly P fault = Unit

  pub Partly-follow :
      {A B : Type 0} (P : A → World env → Type 0) (Q : B → World env → Type 0)
      (r : Run (A × World env)) (f : A → M env B)
      → Partly P r
      → ((a : A) (w : World env) → P a w → Partly Q (f a w))
      → Partly Q (follow r f)
  Partly-follow P Q (ok (a, w)) f h next = next a w h
  Partly-follow P Q fault f h next = tt

  pub Partly-mono :
      {A : Type 0} (P Q : A → World env → Type 0) (r : Run (A × World env))
      → Partly P r
      → ((a : A) (w : World env) → P a w → Q a w)
      → Partly Q r
  Partly-mono P Q (ok (a, w)) h weaken = weaken a w h
  Partly-mono P Q fault h weaken = tt

  pub Returns-Partly :
      {A : Type 0} (P Q : A → World env → Type 0) (r : Run (A × World env))
      → Returns P r
      → Partly Q r
      → Returns (λ a w. P a w × Q a w) r
  Returns-Partly P Q (ok (a, w)) h k = (h, k)
  Returns-Partly P Q fault h k = absurd h

  pub record SameVrfs (w u : World env) : Type 0 where
    pub name : (i : ℕ) → (u.vrfs i).name ≡ (w.vrfs i).name
    pub valid : (i : ℕ) → (u.vrfs i).valid ≡ (w.vrfs i).valid
    pub vrf_id : (i : ℕ) → (u.vrfs i).dp.vrf_id ≡ (w.vrfs i).dp.vrf_id
    pub tunnel_rmap : (i : ℕ) → (u.vrfs i).dp.tunnel_rmap ≡ (w.vrfs i).dp.tunnel_rmap
    pub internal_ip : (i : ℕ) → (u.vrfs i).dp.internal_ip ≡ (w.vrfs i).dp.internal_ip
    pub route_mac : (i : ℕ) → (u.vrfs i).dp.route_mac ≡ (w.vrfs i).dp.route_mac
    pub vrf_n : u.vrf_n ≡ w.vrf_n
    pub tunnels : u.tunnels ≡ w.tunnels
    pub rib : u.rib ≡ w.rib

  -- The state differs in other parts only.
  pub SameVrfs-eq :
      (w u : World env)
      → u.vrfs ≡ w.vrfs
      → u.vrf_n ≡ w.vrf_n
      → u.tunnels ≡ w.tunnels
      → u.rib ≡ w.rib
      → SameVrfs w u
  SameVrfs-eq w u e n t r = record {
    name = λ i. ap (λ f. (f i).name) e;
    valid = λ i. ap (λ f. (f i).valid) e;
    vrf_id = λ i. ap (λ f. (f i).dp.vrf_id) e;
    tunnel_rmap = λ i. ap (λ f. (f i).dp.tunnel_rmap) e;
    internal_ip = λ i. ap (λ f. (f i).dp.internal_ip) e;
    route_mac = λ i. ap (λ f. (f i).dp.route_mac) e;
    vrf_n = n;
    tunnels = t;
    rib = r;
  }

  pub SameVrfs-trans : {w x u : World env} → SameVrfs w x → SameVrfs x u → SameVrfs w u
  SameVrfs-trans s t = record {
    name = λ i. t.name i ∙ s.name i;
    valid = λ i. t.valid i ∙ s.valid i;
    vrf_id = λ i. t.vrf_id i ∙ s.vrf_id i;
    tunnel_rmap = λ i. t.tunnel_rmap i ∙ s.tunnel_rmap i;
    internal_ip = λ i. t.internal_ip i ∙ s.internal_ip i;
    route_mac = λ i. t.route_mac i ∙ s.route_mac i;
    vrf_n = t.vrf_n ∙ s.vrf_n;
    tunnels = t.tunnels ∙ s.tunnels;
    rib = t.rib ∙ s.rib;
  }

  abbrev pub KeepsVrfs : {A : Type 0} → World env → Run (A × World env) → Type 0
  KeepsVrfs w r = Partly (λ _. SameVrfs w) r

  -- An entry of the RIB goes.
  abbrev pub erase_rib : RibKey → World env → World env
  erase_rib pfx w = record w { rib = env.rib.del w.rib pfx }

  pub SameVrfs-erase :
      (pfx : RibKey) {w u : World env} → SameVrfs w u → SameVrfs (erase_rib pfx w) (erase_rib pfx u)
  SameVrfs-erase pfx s = record {
    name = s.name;
    valid = s.valid;
    vrf_id = s.vrf_id;
    tunnel_rmap = s.tunnel_rmap;
    internal_ip = s.internal_ip;
    route_mac = s.route_mac;
    vrf_n = s.vrf_n;
    tunnels = s.tunnels;
    rib = ap (λ r. env.rib.del r pfx) s.rib;
  }
