-- ===== src/Vrf/Table/Invariant.antt =====
-- agent/vrf.c: the invariant of the array of VRFs, on the names and the counter.
use native.Mathlib.Decide.{ℕ_discrete}
use mathlib.Core.Bool.{false≢true}
use tao_p4code.Base.{
  ℕ, zero, suc, pos, ◌+◌, ◌≤◌, ◌<◌, ◌≡◌, ◌≢◌, inl, inr, refl, sym, ap, ◌∙◌, true, false, none, some,
  List, arith, bytes_eq_refl, update, update_self, length, take_all, if◌then◌else◌, suc_ℤ,
}
use tao_p4code.Dpdk.Owned.{update_ne}
use tao_p4code.Types.{ntb_nr_vrf, ntb_vrf_name_len}
use tao_p4code.World.{Env, World, Vrf}
use tao_p4code.Vrf.Table.{
  vrf_named, scan_add, free_ent, ntb_vrf_add, ntb_vrf_count, vrf_enter, strncpy_name,
}
use tao_p4code.Vrf.Table.Loops.{scan_add_free}
use tao_p4code.Vrf.Table.Add.{Scan-cases, taken, strncpy_fits}

module _ {env : Env} where
  -- The VRFs in use among the first `n`.
  unfoldable pub count_valid : (ℕ → Vrf env) → ℕ → ℕ
  count_valid vrfs zero = 0
  count_valid vrfs (suc n) = count_valid vrfs n + (if (vrfs n).valid then 1 else 0)

  pub count_valid-le : (vrfs : ℕ → Vrf env) (n : ℕ) → count_valid vrfs n ≤ n
  unfolding count_valid
  count_valid-le vrfs zero = omega arith
  count_valid-le vrfs (suc n) = ground (arith, count_valid-le vrfs n)

  -- An element from `n` on does not count.
  count_valid-update_above :
      (vrfs : ℕ → Vrf env) (k n : ℕ) (v : Vrf env)
      → n ≤ k
      → count_valid (update vrfs k v) n ≡ count_valid vrfs n
  unfolding count_valid
  count_valid-update_above vrfs k zero v h = refl
  count_valid-update_above vrfs k (suc n) v h =
      rw (count_valid-update_above vrfs k n v (omega arith), update_ne vrfs k n v (omega arith))

  -- A free element that is taken counts one more.
  count_valid-update :
      (vrfs : ℕ → Vrf env) (k n : ℕ) (v : Vrf env)
      → k < n
      → (vrfs k).valid ≡ false
      → v.valid ≡ true
      → count_valid (update vrfs k v) n ≡ count_valid vrfs n + 1
  unfolding count_valid
  count_valid-update vrfs k zero v h off on = absurd (omega arith)
  count_valid-update vrfs k (suc n) v h off on = elim (ℕ_discrete k n) [
    | yes e ↦ rw (← e) (
        rw (count_valid-update_above vrfs k k v (omega arith), update_self vrfs k v, on, off)
          (omega arith))
    | no ne ↦
        rw
          (
            count_valid-update vrfs k n v (omega arith) off on,
            update_ne vrfs k n v (λ p. ne (sym p)),
          )
          (omega arith)
  ]

  pub record IsTable (w : World env) : Type 0 where
    pub apart :
        (i j : ℕ)
        → i < ntb_nr_vrf
        → j < ntb_nr_vrf
        → (w.vrfs i).valid ≡ true
        → (w.vrfs j).valid ≡ true
        → (w.vrfs i).name ≡ (w.vrfs j).name
        → i ≡ j
    pub fits : (i : ℕ) → (w.vrfs i).valid ≡ true → length (w.vrfs i).name < ntb_vrf_name_len
    pub counted : w.vrf_n ≡ pos (count_valid w.vrfs ntb_nr_vrf)

  -- In a table that keeps names apart, the element that ntb_vrf_add takes gets a name that no other
  -- VRF in use has.
  no_other :
      (w : World env) (name : List ℕ) (k j : ℕ)
      → IsTable w
      → length name < ntb_vrf_name_len
      → scan_add w.vrfs name ntb_nr_vrf 0 none ≡ free_ent (some k)
      → j < ntb_nr_vrf
      → (w.vrfs j).valid ≡ true
      → (w.vrfs j).name ≡ strncpy_name name
      → ⊥
  no_other w name k j t short e high on same = false≢true (
      sym (scan_add_free w.vrfs name ntb_nr_vrf 0 none (some k) e j (omega arith) (omega arith))
      ∙ named)
    where
      named : vrf_named (w.vrfs j) name ≡ true
      named = rw (on, same, strncpy_fits name short) (bytes_eq_refl name)

  module _ (w : World env) (name : List ℕ) (k : ℕ) (t : IsTable w)
      (short : length name < ntb_vrf_name_len)
      (e : scan_add w.vrfs name ntb_nr_vrf 0 none ≡ free_ent (some k)) where
    entered : ℕ → Vrf env
    unfolding vrf_enter
    entered = (vrf_enter w name k).vrfs

    at_k : ((entered k).name ≡ strncpy_name name) × ((entered k).valid ≡ true)
    unfolding entered
    at_k = ground arith

    off_k : (i : ℕ) → i ≢ k → entered i ≡ w.vrfs i
    unfolding entered
    off_k i ne = update_ne w.vrfs k i _ ne

    valid_off : (i : ℕ) → i ≢ k → (entered i).valid ≡ true → (w.vrfs i).valid ≡ true
    valid_off i ne on = ap (λ v. v.valid) (sym (off_k i ne)) ∙ on

    enter-apart :
        (i j : ℕ)
        → i < ntb_nr_vrf
        → j < ntb_nr_vrf
        → (entered i).valid ≡ true
        → (entered j).valid ≡ true
        → (entered i).name ≡ (entered j).name
        → i ≡ j
    enter-apart i j hi hj oi oj same = elim (ℕ_discrete i k) [
      | yes p ↦ elim (ℕ_discrete j k) [
        | yes q ↦ p ∙ sym q
        | no ne ↦ absurd (
            no_other w name k j t short e hj (valid_off j ne oj) (
              ap (λ v. v.name) (sym (off_k j ne))
              ∙ sym same
              ∙ ap (λ x. (entered x).name) p
              ∙ at_k.0))
      ]
      | no ne ↦ elim (ℕ_discrete j k) [
        | yes q ↦ absurd (
            no_other w name k i t short e hi (valid_off i ne oi)
              (ap (λ v. v.name) (sym (off_k i ne)) ∙ same ∙ ap (λ x. (entered x).name) q ∙ at_k.0))
        | no ne' ↦
            t.apart i j hi hj (valid_off i ne oi) (valid_off j ne' oj)
              (ap (λ v. v.name) (sym (off_k i ne)) ∙ same ∙ ap (λ v. v.name) (off_k j ne'))
      ]
    ]

    enter-IsTable : IsTable (vrf_enter w name k)
    unfolding vrf_enter entered
    enter-IsTable = record {
      apart = enter-apart;
      fits = λ i on. elim (ℕ_discrete i k) [
        | yes p ↦ rw (p, update_self w.vrfs k, take_all 64 name (omega arith)) short
        | no ne ↦ rw (off_k i ne) (t.fits i (valid_off i ne on))
      ];
      counted =
          ap suc_ℤ t.counted
          ∙ ap pos (
              sym (
                count_valid-update w.vrfs k ntb_nr_vrf _ (taken w name k e).0 (taken w name k e).1
                  refl));
    }

  -- ntb_vrf_add, given a name of less than 64 bytes, keeps the names of the VRFs in use apart
  -- and within their buffers, and the counter equal to the number of VRFs in use.
  pub ntb_vrf_add-IsTable :
      (w : World env) (name : List ℕ)
      → IsTable w
      → length name < ntb_vrf_name_len
      → IsTable (ntb_vrf_add w name).1
  unfolding ntb_vrf_add
  ntb_vrf_add-IsTable w name t short = elim (Scan-cases (scan_add w.vrfs name ntb_nr_vrf 0 none)) [
    | inl e ↦ rw (e, ntb_vrf_add) t
    | inr (inl e) ↦ rw (e, ntb_vrf_add) t
    | inr (inr (k, e)) ↦ rw (e, ntb_vrf_add) (enter-IsTable w name k t short e)
  ]

  -- Where the counter equals the number of VRFs in use, the count that ntb_vrf_count returns is
  -- a number of at most NTB_NR_VRF.
  pub ntb_vrf_count-le :
      (w : World env) → IsTable w → (n : ℕ) × (ntb_vrf_count w ≡ pos n) × (n ≤ ntb_nr_vrf)
  unfolding ntb_vrf_count
  ntb_vrf_count-le w t =
      (count_valid w.vrfs ntb_nr_vrf, t.counted, count_valid-le w.vrfs ntb_nr_vrf)
