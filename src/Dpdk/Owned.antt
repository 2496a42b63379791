-- ===== src/Dpdk/Owned.antt =====
-- A table of objects: its data are the addresses of objects that the program has allocated.
use tao_p4code.Base.{
  ℕ, ◌≡◌, ◌≢◌, sym, ◌∙◌, ap, Option, none, some, arith, update, update_self, subst,
}
use tao_p4code.Dpdk.{Table}

-- Every address in the table is that of a live object that `P` describes, and no two keys share one.
pub record Owned {K A : Type 0} (t : Table K ℕ) (P : K → A → Type 0) (tbl : t.Tbl)
    (heap : ℕ → Option A) : Type 0 where
  pub live : (k : K) (p : ℕ) → t.lookup tbl k ≡ some p → (a : A) × (heap p ≡ some a) × P k a
  pub apart : (j k : K) (p : ℕ) → t.lookup tbl j ≡ some p → t.lookup tbl k ≡ some p → j ≡ k

-- What the table holds may be described otherwise.
pub Owned-mono :
    {K A : Type 0} (t : Table K ℕ) (P Q : K → A → Type 0) {tbl : t.Tbl} {heap : ℕ → Option A}
    → Owned t P tbl heap
    → ((k : K) (p : ℕ) (a : A) → t.lookup tbl k ≡ some p → heap p ≡ some a → P k a → Q k a)
    → Owned t Q tbl heap
Owned-mono t P Q o weaken = record {
  live = λ k p e. let (a, ha, pa) = o.live k p e in (a, ha, weaken k p a e ha pa);
  apart = o.apart;
}

-- The same table and the same heap, in another state.
pub Owned-eq :
    {K A : Type 0} (t : Table K ℕ) (P : K → A → Type 0) {tbl u : t.Tbl} {heap g : ℕ → Option A}
    → u ≡ tbl
    → g ≡ heap
    → Owned t P tbl heap
    → Owned t P u g
Owned-eq t P e f o = record {
  live = λ k p h.
      let (a, ha, pa) = o.live k p (ap (λ x. t.lookup x k) (sym e) ∙ h) in
      (a, ap (λ x. x p) f ∙ ha, pa);
  apart = λ j k p h i.
      o.apart j k p (ap (λ x. t.lookup x j) (sym e) ∙ h) (ap (λ x. t.lookup x k) (sym e) ∙ i);
}

module _ {A : Type 0} where
  pub update_ne : (f : ℕ → A) (i j : ℕ) (v : A) → j ≢ i → update f i v j ≡ f j
  update_ne f i j v ne = ground arith

module _ {K A : Type 0} (t : Table K ℕ) (P : K → A → Type 0) (same : Discrete K) {tbl : t.Tbl}
    {heap : ℕ → Option A} (o : Owned t P tbl heap) where
  -- A key other than `k` keeps its object when the object of `k` is written.
  other_live :
      (j k : K) (p q : ℕ) (a : Option A)
      → t.lookup tbl k ≡ some p
      → j ≢ k
      → t.lookup tbl j ≡ some q
      → (b : A) × (update heap p a q ≡ some b) × P j b
  other_live j k p q a at ne e =
      let ne_p : q ≢ p = λ h. ne (o.apart j k p (e ∙ ap some h) at) in
      let (b, hb, pb) = o.live j q e in (b, update_ne heap p q a ne_p ∙ hb, pb)

  -- An object is rewritten in place.
  pub Owned-write :
      (k : K) (p : ℕ) (a : A)
      → t.lookup tbl k ≡ some p
      → P k a
      → Owned t P tbl (update heap p (some a))
  Owned-write k p a at holds = record {
    live = λ j q e. elim (same j k) [
      | yes h ↦ (
        a,
        rw (← some_eq j q e h) (update_self heap p (some a)),
        subst (λ x. P x a) (sym h) holds,
      )
      | no ne ↦ other_live j k p q (some a) at ne e
    ];
    apart = o.apart;
  }
    where
      some_eq : (j : K) (q : ℕ) → t.lookup tbl j ≡ some q → j ≡ k → p ≡ q
      some_eq j q e h = cc

  -- An object at a fresh address is entered.
  pub Owned-add :
      (k : K) (p : ℕ) (a : A) (u : t.Tbl)
      → heap p ≡ none
      → t.add tbl k p ≡ some u
      → P k a
      → Owned t P u (update heap p (some a))
  Owned-add k p a u fresh added holds = record {
    live = λ j q e. elim (same j k) [
      | yes h ↦ (
        a,
        rw (← at_self j q e h) (update_self heap p (some a)),
        subst (λ x. P x a) (sym h) holds,
      )
      | no ne ↦ old_live j q ne (old j q ne e)
    ];
    apart = λ i j q e f. elim (same i k) [
      | yes h ↦ elim (same j k) [
        | yes g ↦ h ∙ sym g
        | no ne ↦ absurd (clash j q ne (old j q ne f) (at_self i q e h))
      ]
      | no ne ↦ elim (same j k) [
        | yes g ↦ absurd (clash i q ne (old i q ne e) (at_self j q f g))
        | no ne' ↦ o.apart i j q (old i q ne e) (old j q ne' f)
      ]
    ];
  }
    where
      at_self : (j : K) (q : ℕ) → t.lookup u j ≡ some q → j ≡ k → p ≡ q
      at_self j q e h = cc (t.lookup-add_self tbl u k p added)

      old : (j : K) (q : ℕ) → j ≢ k → t.lookup u j ≡ some q → t.lookup tbl j ≡ some q
      old j q ne e = sym (t.lookup-add_ne tbl u k j p added ne) ∙ e

      clash : (j : K) (q : ℕ) → j ≢ k → t.lookup tbl j ≡ some q → p ≡ q → ⊥
      clash j q ne e h = let (b, hb, pb) = o.live j q e in cc

      old_live :
          (j : K) (q : ℕ)
          → j ≢ k
          → t.lookup tbl j ≡ some q
          → (b : A) × (update heap p (some a) q ≡ some b) × P j b
      old_live j q ne e =
          let (b, hb, pb) = o.live j q e in
          (b, update_ne heap p q (some a) (λ h. clash j q ne e (sym h)) ∙ hb, pb)

  -- An object is freed and its key is taken out.
  pub Owned-del :
      (k : K) (p : ℕ) → t.lookup tbl k ≡ some p → Owned t P (t.del tbl k) (update heap p none)
  Owned-del k p at = record {
    live = λ j q e. elim (same j k) [
      | yes h ↦ absurd (gone j q e h)
      | no ne ↦ other_live j k p q none at ne (old j q ne e)
    ];
    apart = λ i j q e f. o.apart i j q (still i q e) (still j q f);
  }
    where
      gone : (j : K) (q : ℕ) → t.lookup (t.del tbl k) j ≡ some q → j ≡ k → ⊥
      gone j q e h = cc (t.lookup-del_self tbl k)

      old : (j : K) (q : ℕ) → j ≢ k → t.lookup (t.del tbl k) j ≡ some q → t.lookup tbl j ≡ some q
      old j q ne e = sym (t.lookup-del_ne tbl k j ne) ∙ e

      still : (j : K) (q : ℕ) → t.lookup (t.del tbl k) j ≡ some q → t.lookup tbl j ≡ some q
      still j q e = elim (same j k) [ yes h ↦ absurd (gone j q e h) | no ne ↦ old j q ne e ]
