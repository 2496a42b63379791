-- ===== src/Vrf/Table/Attributes.antt =====
-- The attributes of a VRF, as they are set and read by its name, and the VRFs by id.
use tao_p4code.Base.{
  ℕ, zero, suc, is_zero, ◌+◌, ◌-◌, ◌%◌, ◌^◌, ◌<◌, ◌≡◌, inl, inr, refl, ◌&&◌, none, some, List,
  arith, Option-cases, ==_refl, if◌then◌else◌, ltb,
}
use tao_p4code.Types.{Mac, ntb_nr_vrf}
use tao_p4code.World.{Env, World, Vrf, VrfDp, ok, fault, set_dp}
use tao_p4code.Vrf.Table.{
  vrf_named, find_vrf, ntb_vrf_lookup, ntb_vrf_intip_set, ntb_vrf_intip_get, ntb_vrf_rmac_set,
  ntb_vrf_rmac_get, ntb_vrf_get_by_id,
}

module _ {env : Env} where
  -- The lookup of names reads names and `valid` alone.
  find_vrf-eq :
      (f g : ℕ → Vrf env) (name : List ℕ)
      → ((i : ℕ) → vrf_named (g i) name ≡ vrf_named (f i) name)
      → (n i : ℕ) → find_vrf g name n i ≡ find_vrf f name n i
  unfolding find_vrf
  find_vrf-eq f g name same zero i = refl
  find_vrf-eq f g name same (suc n) i =
      rw (same i, find_vrf) (ground (arith, find_vrf-eq f g name same n (i + 1)))

  lookup-set_dp :
      (w : World env) (v : ℕ) (d : VrfDp env) (name : List ℕ)
      → ntb_vrf_lookup (set_dp w v d) name ≡ ntb_vrf_lookup w name
  unfolding ntb_vrf_lookup
  lookup-set_dp w v d name =
      find_vrf-eq w.vrfs (set_dp w v d).vrfs name (λ i. ground arith) ntb_nr_vrf 0

  -- What ntb_vrf_intip_set sets is what ntb_vrf_intip_get reads, for every name; if there is no
  -- VRF of the name, both say so.
  pub intip_get-set :
      (w : World env) (name : List ℕ) (ip : ℕ)
      → let (ret, w') = ntb_vrf_intip_set w name ip in
        ntb_vrf_intip_get w' name ≡ (ret, (if is_zero ret then some ip else none))
  unfolding ntb_vrf_intip_set ntb_vrf_intip_get
  intip_get-set w name ip = elim (Option-cases (ntb_vrf_lookup w name)) [
    | inl e ↦ rw (e, ntb_vrf_intip_set) (rw (e, ntb_vrf_intip_get) refl)
    | inr (i, e) ↦
        rw (e, ntb_vrf_intip_set)
          (rw (lookup-set_dp w i _ name, e, ntb_vrf_intip_get) (ground (arith, ==_refl i)))
  ]

  -- A MAC address that ntb_vrf_rmac_set sets is what ntb_vrf_rmac_get reads; if there is no VRF
  -- of the name, both say so.
  pub rmac_get-set :
      (w : World env) (name : List ℕ) (mac : Mac)
      → let (ret, w') = ntb_vrf_rmac_set w name mac in
        ntb_vrf_rmac_get w' name ≡ (ret, (if is_zero ret then some mac else none))
  unfolding ntb_vrf_rmac_set ntb_vrf_rmac_get
  rmac_get-set w name mac = elim (Option-cases (ntb_vrf_lookup w name)) [
    | inl e ↦ rw (e, ntb_vrf_rmac_set) (rw (e, ntb_vrf_rmac_get) refl)
    | inr (i, e) ↦
        rw (e, ntb_vrf_rmac_set)
          (rw (lookup-set_dp w i _ name, e, ntb_vrf_rmac_get) (ground (arith, ==_refl i)))
  ]

  -- ntb_vrf_get_by_id reads before the array at the id 0. At an id from 1 to 2 ^ 31 it gives the
  -- element whose index is one less, where that is an element of the array in use, and NULL
  -- otherwise.
  pub get_by_id-suc :
      (w : World env) (i : ℕ)
      → i < 2 ^ 31
      → (ntb_vrf_get_by_id w 0 ≡ fault)
        × (ntb_vrf_get_by_id w (suc i)
            ≡ ok (if ltb i ntb_nr_vrf && (w.vrfs i).valid then some i else none))
  unfolding ntb_vrf_get_by_id
  get_by_id-suc w i h =
      let same : (suc i + 2 ^ 32 - 1) % 2 ^ 32 ≡ i = omega arith in
      (refl, rw (same, ntb_vrf_get_by_id) (ground arith))
