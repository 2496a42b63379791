-- ===== src/Vrf/Table/Loops.antt =====
-- The loops of agent/vrf.c over the array of VRFs, against what they look for.
use tao_p4code.Base.{
  ℕ, zero, suc, ◌+◌, ◌≤◌, ◌<◌, ◌≡◌, ◌≢◌, ◌⊎◌, inl, inr, true, false, Option, none, some, List,
  arith, Bool-cases, if◌then◌else◌, sym, ap, ◌∙◌,
}
use native.Mathlib.Decide.{ℕ_discrete}
use mathlib.Core.Bool.{false≢true}
use tao_p4code.World.{Env, Vrf}
use tao_p4code.Vrf.Table.{vrf_named, find_vrf, scan_add, exists, free_ent, first_free}

module _ {env : Env} where
  -- What the loop of ntb_vrf_add has found after the element `i`.
  abbrev pub next_free : Vrf env → ℕ → Option ℕ → Option ℕ
  next_free vrf i free = if vrf.valid then free else first_free free i

  had_none : (vrf : Vrf env) (i : ℕ) (free : Option ℕ) → next_free vrf i free ≡ none → free ≡ none
  had_none vrf i free h = ground arith

  valid_of :
      (vrf : Vrf env) (i : ℕ) (free : Option ℕ) → next_free vrf i free ≡ none → vrf.valid ≡ true
  valid_of vrf i free h = ground arith

  had_some :
      (vrf : Vrf env) (i k : ℕ) (free : Option ℕ)
      → next_free vrf i free ≡ some k
      → (free ≡ some k) ⊎ ((i ≡ k) × (vrf.valid ≡ false))
  had_some vrf i k free h = ground arith

module _ {env : Env} (vrfs : ℕ → Vrf env) (name : List ℕ) where
  differ : (i j : ℕ) → vrf_named (vrfs i) name ≡ false → vrf_named (vrfs j) name ≡ true → i ≢ j
  differ i j e h p = absurd (false≢true (sym e ∙ ap (λ k. vrf_named (vrfs k) name) p ∙ h))

  -- What find_vrf finds is a VRF of the name, among those that it walks through.
  pub find_vrf_sound :
      (n i j : ℕ)
      → find_vrf vrfs name n i ≡ some j
      → (i ≤ j) × (j < i + n) × (vrf_named (vrfs j) name ≡ true)
  unfolding find_vrf
  find_vrf_sound zero i j h = ground arith
  find_vrf_sound (suc n) i j h = elim (Bool-cases (vrf_named (vrfs i) name)) [
    | inl e ↦ ground arith
    | inr e ↦ ground (arith, find_vrf_sound n (i + 1) j)
  ]

  -- If there is a VRF of the name among them, it finds one.
  pub find_vrf_complete :
      (n i j : ℕ)
      → i ≤ j
      → j < i + n
      → vrf_named (vrfs j) name ≡ true
      → (k : ℕ) × (find_vrf vrfs name n i ≡ some k) × (k ≤ j)
  unfolding find_vrf
  find_vrf_complete zero i j low high h = absurd (omega arith)
  find_vrf_complete (suc n) i j low high h = elim (Bool-cases (vrf_named (vrfs i) name)) [
    | inl e ↦ (i, rw (e, find_vrf), low)
    | inr e ↦
        let ne : i ≢ j = λ p. differ i j e h p in
        let (k, found, le) = find_vrf_complete n (i + 1) j (omega arith) (omega arith) h in
        (k, rw (e, find_vrf) found, le)
  ]

  -- What the loop of ntb_vrf_add ends with, `free` being what it has found before.
  pub scan_add_exists :
      (n i : ℕ) (free : Option ℕ)
      → scan_add vrfs name n i free ≡ exists
      → (j : ℕ) × (i ≤ j) × (j < i + n) × (vrf_named (vrfs j) name ≡ true)
  unfolding scan_add
  scan_add_exists zero i free h = cc
  scan_add_exists (suc n) i free h = elim (Bool-cases (vrf_named (vrfs i) name)) [
    | inl e ↦ (i, omega arith, omega arith, e)
    | inr e ↦
        let (j, low, high, named) =
          scan_add_exists n (i + 1) (next_free (vrfs i) i free) (ground arith) in
        (j, omega arith, omega arith, named)
  ]

  -- One round of the loop that does not return.
  scan_add_step :
      (n i : ℕ) (free k : Option ℕ)
      → scan_add vrfs name (suc n) i free ≡ free_ent k
      → (vrf_named (vrfs i) name ≡ false)
        × (scan_add vrfs name n (i + 1) (next_free (vrfs i) i free) ≡ free_ent k)
  unfolding scan_add
  scan_add_step n i free k h = ground arith

  -- If the loop runs to its end, no VRF has the name.
  pub scan_add_free :
      (n i : ℕ) (free k : Option ℕ)
      → scan_add vrfs name n i free ≡ free_ent k
      → (j : ℕ) → i ≤ j
      → j < i + n
      → vrf_named (vrfs j) name ≡ false
  scan_add_free zero i free k h j low high = absurd (omega arith)
  scan_add_free (suc n) i free k h j low high =
      let (miss, rest) = scan_add_step n i free k h in
      elim (ℕ_discrete i j) [
        | yes e ↦ ap (λ x. vrf_named (vrfs x) name) (sym e) ∙ miss
        | no ne ↦ scan_add_free n (i + 1) _ k rest j (omega arith) (omega arith)
      ]

  -- The element that it offers is one that it had, or one that it passed and found free.
  pub scan_add_finds :
      (n i : ℕ) (free : Option ℕ) (k : ℕ)
      → scan_add vrfs name n i free ≡ free_ent (some k)
      → (free ≡ some k) ⊎ ((i ≤ k) × (k < i + n) × ((vrfs k).valid ≡ false))
  unfolding scan_add
  scan_add_finds zero i free k h = inl (ground arith)
  scan_add_finds (suc n) i free k h =
      elim (scan_add_finds n (i + 1) _ k (scan_add_step n i free (some k) h).1) [
        | inl e ↦ elim (had_some (vrfs i) i k free e) [
          | inl had ↦ inl had
          | inr (same, off) ↦
              inr (omega arith, omega arith, ap (λ x. (vrfs x).valid) (sym same) ∙ off)
        ]
        | inr (low, high, off) ↦ inr (omega arith, omega arith, off)
      ]

  -- If it offers none, every element is in use.
  pub scan_add_full :
      (n i : ℕ) (free : Option ℕ)
      → scan_add vrfs name n i free ≡ free_ent none
      → (free ≡ none) × ((j : ℕ) → i ≤ j → j < i + n → (vrfs j).valid ≡ true)
  unfolding scan_add
  scan_add_full zero i free h = (ground arith, λ j low high. absurd (omega arith))
  scan_add_full (suc n) i free h =
      let (had, rest) = scan_add_full n (i + 1) _ (scan_add_step n i free none h).1 in
      (
        had_none (vrfs i) i free had,
        λ j low high. elim (ℕ_discrete i j) [
          | yes e ↦ ap (λ x. (vrfs x).valid) (sym e) ∙ valid_of (vrfs i) i free had
          | no ne ↦ rest j (omega arith) (omega arith)
        ],
      )
