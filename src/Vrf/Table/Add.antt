-- ===== src/Vrf/Table/Add.antt =====
-- agent/vrf.c: ntb_vrf_add and the lookup by name.
use tao_p4code.Base.{
  ℕ, ℤ, pos, negsuc, ◌<◌, ◌≡◌, ◌↔◌, ◌⊎◌, inl, inr, refl, sym, ap, ◌∙◌, true, false, none, some,
  List, arith, bytes_eq_refl, length, take_all, update_self,
}
use mathlib.Core.Bool.{false≢true}
use tao_p4code.Types.{ntb_nr_vrf, ntb_vrf_name_len}
use tao_p4code.Errno.{ntb_err_code, ntb_vrf_noent}
use tao_p4code.World.{Env, World}
use tao_p4code.Vrf.Table.{
  vrf_named, scan_add, Scan, exists, free_ent, c_str, ntb_vrf_lookup, ntb_vrf_add, vrf_enter,
  strncpy_name,
}
use tao_p4code.Vrf.Table.Loops.{
  find_vrf_sound, find_vrf_complete, scan_add_exists, scan_add_free, scan_add_finds, scan_add_full,
}

-- What the loop of ntb_vrf_add ends with, and the equation.
pub Scan-cases :
    (s : Scan) → (s ≡ exists) ⊎ (s ≡ free_ent none) ⊎ ((k : ℕ) × (s ≡ free_ent (some k)))
Scan-cases exists = inl refl
Scan-cases (free_ent none) = inr (inl refl)
Scan-cases (free_ent (some k)) = inr (inr (k, refl))

ok_ne_err {ℓ} : {A : Type ℓ} (a b : A) (m : ℕ) → ◌≡◌ {A = ℤ × A} (pos 0, a) (negsuc m, b) → ⊥
ok_ne_err a b m h = pos_ne_neg m (ap (λ x. x.0) h)
  where
    pos_ne_neg : (m : ℕ) → pos 0 ≡ negsuc m → ⊥
    pos_ne_neg m e = cc

-- A name that fits its buffer with its NUL is stored as it is.
pub strncpy_fits :
    (name : List ℕ) → length name < ntb_vrf_name_len → c_str (strncpy_name name) ≡ name
strncpy_fits name h = rw (take_all 64 name (omega arith)) (ground arith)

module _ {env : Env} where
  -- The VRF `i` is in use under the name.
  abbrev pub Named : World env → ℕ → List ℕ → Type 0
  Named w i name = (i < ntb_nr_vrf) × (vrf_named (w.vrfs i) name ≡ true)

  enter-Named :
      (w : World env) (name : List ℕ) (k : ℕ)
      → length name < ntb_vrf_name_len
      → vrf_named ((vrf_enter w name k).vrfs k) name ≡ true
  unfolding vrf_enter
  enter-Named w name k h =
      ap (λ v. vrf_named v name) (update_self w.vrfs k _)
      ∙ rw (strncpy_fits name h) (bytes_eq_refl name)

  -- If there is a VRF of the name, ntb_vrf_lookup finds one.
  find-Named :
      (w : World env) (name : List ℕ) (j : ℕ)
      → Named w j name
      → (i : ℕ) × (ntb_vrf_lookup w name ≡ some i) × Named w i name
  unfolding ntb_vrf_lookup
  find-Named w name j (low, named) =
      let (i, found, le) =
        find_vrf_complete w.vrfs name ntb_nr_vrf 0 j (omega arith) (omega arith) named in
      let (_, high, is) = find_vrf_sound w.vrfs name ntb_nr_vrf 0 i found in
      (i, found, (omega arith, is))

  -- The element that ntb_vrf_add takes is a free one of the array.
  pub taken :
      (w : World env) (name : List ℕ) (k : ℕ)
      → scan_add w.vrfs name ntb_nr_vrf 0 none ≡ free_ent (some k)
      → (k < ntb_nr_vrf) × ((w.vrfs k).valid ≡ false)
  taken w name k e = elim (scan_add_finds w.vrfs name ntb_nr_vrf 0 none k e) [
    | inl h ↦ cc h
    | inr (low, high, off) ↦ (omega arith, off)
  ]

  -- If ntb_vrf_add returns 0 for a name of less than 64 bytes, ntb_vrf_lookup then finds a VRF
  -- in use of that name.
  pub lookup-add :
      (w : World env) (name : List ℕ)
      → length name < ntb_vrf_name_len
      → (ntb_vrf_add w name).0 ≡ pos 0
      → (i : ℕ) × (ntb_vrf_lookup (ntb_vrf_add w name).1 name ≡ some i)
        × Named (ntb_vrf_add w name).1 i name
  unfolding ntb_vrf_add
  lookup-add w name short h = elim (Scan-cases (scan_add w.vrfs name ntb_nr_vrf 0 none)) [
    | inl e ↦
        let (j, low, high, is) = scan_add_exists w.vrfs name ntb_nr_vrf 0 none e in
        rw (e, ntb_vrf_add) (find-Named w name j (omega arith, is))
    | inr (inl e) ↦ cc (rw (e, ntb_vrf_add) at h)
    | inr (inr (k, e)) ↦
        rw (e, ntb_vrf_add)
          (find-Named (vrf_enter w name k) name k
            ((taken w name k e).0, enter-Named w name k short))
  ]

  -- Every VRF is in use, and none has the name.
  abbrev pub AllTaken : World env → List ℕ → Type 0
  AllTaken w name =
      (j : ℕ) → j < ntb_nr_vrf → ((w.vrfs j).valid ≡ true) × (vrf_named (w.vrfs j) name ≡ false)

  -- ntb_vrf_add fails with NTB_VRF_NOENT, and changes nothing, exactly when every VRF is in use
  -- and none has the name.
  pub add-eq-noent :
      (w : World env) (name : List ℕ)
      → (ntb_vrf_add w name ≡ (ntb_err_code ntb_vrf_noent, w)) ↔ AllTaken w name
  unfolding ntb_vrf_add
  add-eq-noent w name = elim (Scan-cases (scan_add w.vrfs name ntb_nr_vrf 0 none)) [
    | inl e ↦
        let (j, low, high, is) = scan_add_exists w.vrfs name ntb_nr_vrf 0 none e in
        rw (e, ntb_vrf_add)
          (
            λ h. absurd (ok_ne_err w _ 6 h),
            λ all. absurd (false≢true (sym (all j (omega arith)).1 ∙ is)),
          )
    | inr (inl e) ↦
        rw (e, ntb_vrf_add)
          (
            λ h j high. (
              (scan_add_full w.vrfs name ntb_nr_vrf 0 none e).1 j (omega arith) (omega arith),
              scan_add_free w.vrfs name ntb_nr_vrf 0 none none e j (omega arith) (omega arith),
            ),
            λ all. refl,
          )
    | inr (inr (k, e)) ↦
        let (high, off) = taken w name k e in
        rw (e, ntb_vrf_add)
          (λ h. absurd (ok_ne_err _ w 6 h), λ all. absurd (false≢true (sym off ∙ (all k high).0)))
  ]
