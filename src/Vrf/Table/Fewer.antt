-- ===== src/Vrf/Table/Fewer.antt =====
-- The array of VRFs where one of them goes out of use.
use native.Mathlib.Decide.{ℕ_discrete}
use tao_p4code.Base.{
  ℕ, zero, suc, pos, ◌<◌, ◌≡◌, ◌≢◌, refl, sym, ap, ◌∙◌, Bool, true, false, arith, if◌then◌else◌,
  pred_ℤ, length,
}
use tao_p4code.Types.{ntb_nr_vrf}
use tao_p4code.World.{Env, World, Vrf}
use tao_p4code.Vrf.Table.Invariant.{IsTable, count_valid}

one_if : Bool → ℕ
one_if b = if b then 1 else 0

module _ {env : Env} where
  count_valid-same :
      (f g : ℕ → Vrf env) (n : ℕ)
      → ((j : ℕ) → j < n → (g j).valid ≡ (f j).valid)
      → count_valid g n ≡ count_valid f n
  unfolding count_valid one_if
  count_valid-same f g zero same = refl
  count_valid-same f g (suc n) same =
      let rest = count_valid-same f g n (λ j low. same j (omega (arith, low))) in
      let last = ap one_if (same n (omega arith)) in omega (arith, rest, last)

  -- One fewer of the first `n` is in use.
  count_valid-off :
      (f g : ℕ → Vrf env) (k n : ℕ)
      → k < n
      → (f k).valid ≡ true
      → (g k).valid ≡ false
      → ((j : ℕ) → j ≢ k → (g j).valid ≡ (f j).valid)
      → count_valid f n ≡ suc (count_valid g n)
  unfolding count_valid one_if
  count_valid-off f g k zero h on off same = absurd (omega (arith, h))
  count_valid-off f g k (suc n) h on off same = elim (ℕ_discrete n k) [
    | yes e ↦
        let rest = count_valid-same f g n (λ j low. same j (omega (arith, low, e))) in
        let here : one_if (f n).valid ≡ 1 = ap (λ i. one_if (f i).valid) e ∙ ap one_if on in
        let there : one_if (g n).valid ≡ 0 = ap (λ i. one_if (g i).valid) e ∙ ap one_if off in
        omega (arith, rest, here, there)
    | no ne ↦
        let rest = count_valid-off f g k n (omega (arith, h, ne)) on off same in
        let last = ap one_if (same n ne) in omega (arith, rest, last)
  ]

  -- The VRF `k` is not in use any more, the counter is one less, and the rest is the same.
  pub record Fewer (k : ℕ) (w u : World env) : Type 0 where
    pub off : (u.vrfs k).valid ≡ false
    pub valid : (j : ℕ) → j ≢ k → (u.vrfs j).valid ≡ (w.vrfs j).valid
    pub name : (j : ℕ) → j ≢ k → (u.vrfs j).name ≡ (w.vrfs j).name
    pub counter : u.vrf_n ≡ pred_ℤ w.vrf_n

  pub Fewer-IsTable :
      (w u : World env) (k : ℕ)
      → IsTable w
      → k < ntb_nr_vrf
      → (w.vrfs k).valid ≡ true
      → Fewer k w u
      → IsTable u
  Fewer-IsTable w u k t low on f = record {
    apart = λ i j hi hj oi oj same.
        t.apart i j hi hj (stays i oi) (stays j oj)
          (sym (f.name i (other i oi)) ∙ same ∙ f.name j (other j oj));
    fits = λ i oi.
        let e = ap length (f.name i (other i oi)) in omega (arith, e, t.fits i (stays i oi));
    counted =
        f.counter
        ∙ ap pred_ℤ t.counted
        ∙ ap (λ (n : ℕ). pred_ℤ (pos n))
            (count_valid-off w.vrfs u.vrfs k ntb_nr_vrf low on f.off f.valid);
  }
    where
      other : (i : ℕ) → (u.vrfs i).valid ≡ true → i ≢ k
      other i oi e =
          let x : (u.vrfs k).valid ≡ true = ap (λ j. (u.vrfs j).valid) (sym e) ∙ oi in
          let y = f.off in absurd (cc)

      stays : (i : ℕ) → (u.vrfs i).valid ≡ true → (w.vrfs i).valid ≡ true
      stays i oi = sym (f.valid i (other i oi)) ∙ oi
