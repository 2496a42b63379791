-- ===== src/Route/Nhop/Safety.antt =====
-- agent/route.c: what it is for the table of next hops to be sound: live objects with positive
-- counts, each under the key of its own gateway and tunnel.
use native.Mathlib.Decide.{ℕ_discrete}
use tao_p4code.Base.{ℕ, ◌+◌, ◌^◌, ◌<◌, ◌≡◌, some}
use tao_p4code.Types.{EncapType, TunnelInfo, NhopEncapData, FibNhop}
use tao_p4code.Dpdk.Owned.{Owned}
use tao_p4code.World.{Env, World}
use tao_p4code.Neigh.{neigh_key}
use tao_p4code.Neigh.Safety as NeighSafety
use tao_p4code.Route.Nhop.{nhop_key}

pub EncapType-discrete : Discrete EncapType
EncapType-discrete = hlevel

pub TunnelInfo-discrete : Discrete TunnelInfo
TunnelInfo-discrete = hlevel (ℕ_discrete, EncapType-discrete)

pub NhopKey-discrete : Discrete NhopEncapData
NhopKey-discrete = hlevel (ℕ_discrete, TunnelInfo-discrete)

-- An object in the table has its own key, and is in use.
abbrev pub InUse : NhopEncapData → FibNhop → Type 0
InUse k n = (nhop_key n ≡ k) × (0 < n.ref_count) × (n.ref_count < 2 ^ 32)

module _ {env : Env} where
  abbrev pub IsSound : World env → Type 0
  IsSound w = Owned env.nhop InUse w.nhop_tbl w.nhops

  -- The tables of next hops and of neighbours are sound.
  abbrev pub BothSound : World env → Type 0
  BothSound w = IsSound w × NeighSafety.IsSound w

  -- The count of the neighbour that a new next hop uses is not at its largest value.
  abbrev pub NeighRoom : ℕ → NhopEncapData → World env → Type 0
  NeighRoom v key w = NeighSafety.HasRoom w (neigh_key w v key.gateway)

  -- The count of the object of `key`, if there is one, is not at its largest value.
  abbrev pub NhopRoom : NhopEncapData → World env → Type 0
  NhopRoom key w =
      (p : ℕ) (n : FibNhop)
      → env.nhop.lookup w.nhop_tbl key ≡ some p
      → w.nhops p ≡ some n
      → n.ref_count + 1 < 2 ^ 32
