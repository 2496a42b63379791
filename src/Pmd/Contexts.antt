-- ===== src/Pmd/Contexts.antt =====
-- agent/pmd.c: the numbers under which the contexts of the packet threads are registered.
use native.Mathlib.Decide.{ℕ_discrete}
use mathlib.Core.Option.{some-injective}
use tao_p4code.Base.{
  ℕ, zero, suc, ◌+◌, ◌<◌, ◌≤◌, ◌≡◌, ◌≢◌, ◌⊎◌, refl, sym, ap, ◌∙◌, inl, inr, Bool, true, false,
  Option, none, some, arith, Bool-cases, Option-cases, leb, update, update_self,
}
use tao_p4code.Dpdk.Owned.{update_ne}
use tao_p4code.Pmd.{
  ntb_pmd_thr_max, PmdCtx, zero_pmd_ctx, Threads, free_slot, ctx_register, ntb_pmd_ctx_create,
}

-- Every context has the number of its slot.
abbrev pub IsRegistered : (ℕ → Option PmdCtx) → Type 0
IsRegistered ctxs = (i : ℕ) (x : PmdCtx) → ctxs i ≡ some x → x.pid ≡ i

-- All slots of the array are taken.
abbrev pub AllTaken : (ℕ → Option PmdCtx) → Type 0
AllTaken ctxs = (i : ℕ) → i < ntb_pmd_thr_max → (x : PmdCtx) × (ctxs i ≡ some x)

-- Where the search stops: at the first free slot, or behind the last one.
free_slot_lem :
    (ctxs : ℕ → Option PmdCtx) (n i : ℕ)
    → (free_slot ctxs n i < i + n → ctxs (free_slot ctxs n i) ≡ none)
      × ((j : ℕ) → i ≤ j → j < free_slot ctxs n i → (x : PmdCtx) × (ctxs j ≡ some x))
unfolding free_slot
free_slot_lem ctxs zero i = (λ h. absurd (omega arith), λ j low high. absurd (omega arith))
free_slot_lem ctxs (suc n) i = elim (Option-cases (ctxs i)) [
  | inl e ↦ rw (e, free_slot) (λ h. e, λ j low high. absurd (omega arith))
  | inr (x, e) ↦
      let (stop, before) = free_slot_lem ctxs n (i + 1) in
      rw (e, free_slot)
        (
          λ h. stop (omega arith),
          λ j low high. elim (ℕ_discrete j i) [
            | yes eq ↦ (x, ap ctxs eq ∙ e)
            | no ne ↦ before j (omega (arith, ne)) high
          ],
        )
]

-- The call fails and changes nothing, for want of memory or with all slots taken, or it gives a
-- context in a slot that was free.
abbrev pub Created : Bool → Threads → Option PmdCtx → Threads → Type 0
Created memory s none t = (t ≡ s) × ((memory ≡ false) ⊎ AllTaken s.ctxs)
Created memory s (some x) t =
    (x.pid < ntb_pmd_thr_max)
    × (s.ctxs x.pid ≡ none)
    × (t.ctxs x.pid ≡ some x)
    × ((j : ℕ) → j ≢ x.pid → t.ctxs j ≡ s.ctxs j)
    × ((j : ℕ) → j < x.pid → (y : PmdCtx) × (s.ctxs j ≡ some y))

registered :
    (ctxs : ℕ → Option PmdCtx) (i : ℕ)
    → IsRegistered ctxs
    → IsRegistered (update ctxs i (some (record zero_pmd_ctx { pid = i })))
registered ctxs i h j x e = elim (ℕ_discrete j i) [
  | yes eq ↦
      sym (
        ap (λ y. y.pid)
          (some-injective _ x (
            sym (update_self ctxs i _)
            ∙ ap (update ctxs i (some (record zero_pmd_ctx { pid = i }))) (sym eq)
            ∙ e)))
      ∙ sym eq
  | no ne ↦ h j x (sym (update_ne ctxs i j _ ne) ∙ e)
]

-- Where every registered context has the number of its slot, ntb_pmd_ctx_create keeps it so. It
-- gives NULL and changes nothing only for want of memory or where all NTB_PMD_THR_MAX slots are
-- taken; otherwise it gives a context that stands in the first slot that was free, under its
-- number, and leaves the other slots as they were.
pub ntb_pmd_ctx_create-IsRegistered :
    (memory : Bool) (s : Threads)
    → IsRegistered s.ctxs
    → let r = ntb_pmd_ctx_create memory s in IsRegistered r.1.ctxs × Created memory s r.0 r.1
unfolding ntb_pmd_ctx_create
ntb_pmd_ctx_create-IsRegistered memory s h =
    let (stop, before) = free_slot_lem s.ctxs ntb_pmd_thr_max 0 in
    elim (Bool-cases (leb ntb_pmd_thr_max (free_slot s.ctxs ntb_pmd_thr_max 0))) [
      | inl full ↦
          let high : ntb_pmd_thr_max ≤ free_slot s.ctxs ntb_pmd_thr_max 0 = ground arith in
          rw full (h, (refl, inr (λ i low. before i (omega arith) (omega (arith, low, high)))))
      | inr room ↦
          let low : free_slot s.ctxs ntb_pmd_thr_max 0 < ntb_pmd_thr_max = ground arith in
          rw room (made memory low stop before)
    ]
  where
    made :
        (memory : Bool)
        → let i = free_slot s.ctxs ntb_pmd_thr_max 0 in
          i < ntb_pmd_thr_max
          → (i < 0 + ntb_pmd_thr_max → s.ctxs i ≡ none)
          → ((j : ℕ) → 0 ≤ j → j < i → (x : PmdCtx) × (s.ctxs j ≡ some x))
          → let r = ctx_register memory i s in IsRegistered r.1.ctxs × Created memory s r.0 r.1
    made true low stop before = (
      registered s.ctxs _ h,
      (
        low,
        stop low,
        update_self s.ctxs _ _,
        λ j ne. update_ne s.ctxs _ j _ ne,
        λ j less. before j (omega arith) less,
      ),
    )
    made false low stop before = (h, (refl, inl refl))
