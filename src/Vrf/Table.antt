-- ===== src/Vrf/Table.antt =====
-- agent/vrf.c: the VRFs by name and by id, and the attributes of a VRF.
pub mod Loops
pub mod Add
pub mod Invariant
pub mod Attributes
pub mod Fewer
use tao_p4code.Base.{
  ℕ, ℤ, zero, suc, ◌+◌, ◌-◌, ◌%◌, ◌^◌, pos, negsuc, Bool, true, false, ◌&&◌, Option, none, some,
  List, [], ◌∷◌, ◌++◌, ltb, leb, if◌then◌else◌, update, bytes_eq, length, take, suc_ℤ,
}
use tao_p4code.Types.{Mac, ntb_nr_vrf, ntb_vrf_name_len}
use tao_p4code.Errno.{ntb_err_code, ntb_vrf_noent, ntb_vrf_not_exist, ntb_comm_inval_param}
use tao_p4code.World.{Env, World, Vrf, VrfDp, Run, ok, fault, set_dp}

-- `strncpy` into the buffer of 64 bytes: what stands in it before the first NUL.
abbrev pub strncpy_name : List ℕ → List ℕ
strncpy_name s = take ntb_vrf_name_len s

-- The string that `strcmp` reads in a valid VRF: where the 64 bytes hold no NUL it runs on into
-- `valid`, whose first byte is 1.
abbrev pub c_str : List ℕ → List ℕ
c_str name = if ltb (length name) ntb_vrf_name_len then name else name ++ 1 ∷ []

-- What the loop of ntb_vrf_add ends with: a VRF of the name, or the first free element.
pub data Scan : Type 0 where
  exists : Scan
  free_ent : Option ℕ → Scan

-- `if (-1 == free_ent) free_ent = i`.
abbrev pub first_free : Option ℕ → ℕ → Option ℕ
first_free none i = some i
first_free (some j) i = some j

module _ {env : Env} where
  abbrev pub vrf_named : Vrf env → List ℕ → Bool
  vrf_named vrf name = vrf.valid && bytes_eq (c_str vrf.name) name

  -- The loop of ntb_vrf_lookup, ntb_vrf_id_lookup and ntb_vrf_del, `rounds` elements from `i` on.
  unfoldable pub find_vrf : (ℕ → Vrf env) → List ℕ → ℕ → ℕ → Option ℕ
  find_vrf vrfs name zero i = none
  find_vrf vrfs name (suc rounds) i = elim (vrf_named (vrfs i) name) [
    | true ↦ some i
    | false ↦ find_vrf vrfs name rounds (i + 1)
  ]

  unfoldable pub ntb_vrf_lookup : World env → List ℕ → Option ℕ
  ntb_vrf_lookup w name = find_vrf w.vrfs name ntb_nr_vrf 0

  unfoldable pub scan_add : (ℕ → Vrf env) → List ℕ → ℕ → ℕ → Option ℕ → Scan
  scan_add vrfs name zero i free = free_ent free
  scan_add vrfs name (suc rounds) i free = elim (vrfs i).valid [
    | true ↦ elim (bytes_eq (c_str (vrfs i).name) name) [
      | true ↦ exists
      | false ↦ scan_add vrfs name rounds (i + 1) free
    ]
    | false ↦ scan_add vrfs name rounds (i + 1) (first_free free i)
  ]

  -- ntb_vrf_dp_ctor and the MAC address that ntb_vrf_add copies.
  abbrev pub vrf_dp_ctor : Mac → VrfDp env → VrfDp env
  vrf_dp_ctor mac d = record d { tunnel_rmap = []; tunnel_cnt = 0; neigh_cnt = 0; route_mac = mac }

  -- What ntb_vrf_add does with the element that it takes.
  pub vrf_enter : World env → List ℕ → ℕ → World env
  vrf_enter w name i = record w {
    vrfs = update w.vrfs i (record {
      name = strncpy_name name;
      valid = true;
      dp = vrf_dp_ctor w.fake_mac ((w.vrfs i).dp);
    });
    vrf_n = suc_ℤ w.vrf_n;
  }

  unfoldable pub ntb_vrf_add : World env → List ℕ → ℤ × World env
  unfolding vrf_enter
  ntb_vrf_add w name = elim (scan_add w.vrfs name ntb_nr_vrf 0 none) [
    | exists ↦ (pos 0, w)
    | free_ent none ↦ (ntb_err_code ntb_vrf_noent, w)
    | free_ent (some i) ↦ (pos 0, vrf_enter w name i)
  ]

  pub ntb_vrf_count : World env → ℤ
  ntb_vrf_count w = w.vrf_n

  -- `index = vrfid - 1` as an `int`: a negative index reads before the array.
  pub ntb_vrf_get_by_id : World env → ℕ → Run (Option ℕ)
  ntb_vrf_get_by_id w vrfid =
      let index = (vrfid + 2 ^ 32 - 1) % 2 ^ 32 in
      if leb (2 ^ 31) index
      then fault
      else ok (if ltb index ntb_nr_vrf && (w.vrfs index).valid then some index else none)

  unfoldable pub ntb_vrf_dp_get_by_id : World env → ℕ → Run (Option ℕ)
  unfolding ntb_vrf_get_by_id
  ntb_vrf_dp_get_by_id w vrfid = ntb_vrf_get_by_id w vrfid

  pub ntb_vrf_id_lookup : World env → List ℕ → ℤ
  ntb_vrf_id_lookup w name = elim (ntb_vrf_lookup w name) [
    | none ↦ ntb_err_code ntb_vrf_not_exist
    | some i ↦ pos ((w.vrfs i).dp.vrf_id)
  ]

  pub ntb_vrf_intip_set : World env → List ℕ → ℕ → ℤ × World env
  ntb_vrf_intip_set w name intip = elim (ntb_vrf_lookup w name) [
    | none ↦ (ntb_err_code ntb_vrf_not_exist, w)
    | some i ↦ (pos 0, set_dp w i (record ((w.vrfs i).dp) { internal_ip = intip }))
  ]

  pub ntb_vrf_intip_unset : World env → List ℕ → ℤ × World env
  ntb_vrf_intip_unset w name = ntb_vrf_intip_set w name 0

  -- The result, and what is written to `*vrf_ip`.
  pub ntb_vrf_intip_get : World env → List ℕ → ℤ × Option ℕ
  ntb_vrf_intip_get w name = elim (ntb_vrf_lookup w name) [
    | none ↦ (ntb_err_code ntb_vrf_not_exist, none)
    | some i ↦ (pos 0, some ((w.vrfs i).dp.internal_ip))
  ]

  pub ntb_vrf_rmac_set : World env → List ℕ → Mac → ℤ × World env
  ntb_vrf_rmac_set w name mac = elim (ntb_vrf_lookup w name) [
    | none ↦ (ntb_err_code ntb_vrf_not_exist, w)
    | some i ↦ (pos 0, set_dp w i (record ((w.vrfs i).dp) { route_mac = mac }))
  ]

  pub ntb_vrf_rmac_unset : World env → List ℕ → Mac → ℤ × World env
  ntb_vrf_rmac_unset w name mac = elim (ntb_vrf_lookup w name) [
    | none ↦ (ntb_err_code ntb_vrf_not_exist, w)
    | some i ↦
        if bytes_eq mac (w.vrfs i).dp.route_mac
        then (pos 0, set_dp w i (record ((w.vrfs i).dp) { route_mac = w.fake_mac }))
        else (ntb_err_code ntb_comm_inval_param, w)
  ]

  pub ntb_vrf_rmac_get : World env → List ℕ → ℤ × Option Mac
  ntb_vrf_rmac_get w name = elim (ntb_vrf_lookup w name) [
    | none ↦ (ntb_err_code ntb_vrf_not_exist, none)
    | some i ↦ (pos 0, some ((w.vrfs i).dp.route_mac))
  ]
