-- ===== src/Demo/Slot.antt =====
-- A RIB with room for one prefix, which the iteration meets, in the environment of the tests.
use mathlib.Core.Logic.{ite, if_pos, if_neg}
use mathlib.Core.Option.{some-injective}
use tao_p4code.Base.{
  pos, negsuc, ℕ, zero, suc, ◌<◌, ◌≡◌, ◌≢◌, refl, ℤ, Option, none, some, arith, ap, sym, ◌∙◌,
}
use tao_p4code.Types.{RibKey}
use tao_p4code.Dpdk.{Table}
use tao_p4code.Dpdk.Walk.{Walks}
use tao_p4code.World.{Env}
use tao_p4code.Route.Prefix.Write.{RibKey-discrete}
use tao_p4code.Demo.{none_ne_some, demo_env}

abbrev pub Slot : Type 0
Slot = Option (RibKey × ℤ)

abbrev pub slot_lookup : Slot → RibKey → Option ℤ
slot_lookup none k = none
slot_lookup (some (j, v)) k = ite (RibKey-discrete k j) (some v) none

abbrev pub slot_add : Slot → RibKey → ℤ → Option Slot
slot_add none k v = some (some (k, v))
slot_add (some (j, w)) k v = ite (RibKey-discrete k j) (some (some (k, v))) none

abbrev pub slot_del : Slot → RibKey → Slot
slot_del none k = none
slot_del (some (j, v)) k = ite (RibKey-discrete k j) none (some (j, v))

abbrev pub slot_iterate : Slot → ℕ → Option (ℕ × RibKey × ℤ)
slot_iterate none i = none
slot_iterate (some (j, v)) zero = some (1, j, v)
slot_iterate (some (j, v)) (suc i) = none

pub slot_key : (j k : RibKey) (v u : ℤ) → slot_lookup (some (j, v)) k ≡ some u → (k ≡ j) × (v ≡ u)
slot_key j k v u e = elim (RibKey-discrete k j) [
  | yes h ↦ (h, some-injective v u (sym (if_pos (RibKey-discrete k j) h (some v) none) ∙ e))
  | no ne ↦ absurd (none_ne_some (sym (if_neg (RibKey-discrete k j) ne (some v) none) ∙ e))
]

pub slot_met :
    (t : Slot) (i n : ℕ) (k : RibKey) (v : ℤ)
    → slot_iterate t i ≡ some (n, k, v)
    → (t ≡ some (k, v)) × (i ≡ 0) × (n ≡ 1)
slot_met none i n k v e = absurd (none_ne_some e)
slot_met (some (j, u)) zero n k v e =
    let met = some-injective (1, j, u) (n, k, v) e in
    (ap (λ r. some (r.1, r.2)) met, refl, sym (ap (λ r. r.0) met))
slot_met (some (j, u)) (suc i) n k v e = absurd (none_ne_some e)

pub held : (k : RibKey) (v : ℤ) → slot_lookup (some (k, v)) k ≡ some v
held k v = if_pos (RibKey-discrete k k) refl (some v) none

other : (j k : RibKey) (v : ℤ) → k ≢ j → slot_lookup (some (j, v)) k ≡ none
other j k v ne = if_neg (RibKey-discrete k j) ne (some v) none

pub lookup-add : (t u : Slot) (k : RibKey) (v : ℤ) → slot_add t k v ≡ some u → u ≡ some (k, v)
lookup-add none u k v e = sym (some-injective (some (k, v)) u e)
lookup-add (some (j, w)) u k v e = elim (RibKey-discrete k j) [
  | yes h ↦ sym (
      some-injective (some (k, v)) u
        (sym (if_pos (RibKey-discrete k j) h (some (some (k, v))) none) ∙ e))
  | no ne ↦
      absurd (none_ne_some (sym (if_neg (RibKey-discrete k j) ne (some (some (k, v))) none) ∙ e))
]

pub lookup-add_other :
    (t u : Slot) (k j : RibKey) (v : ℤ)
    → slot_add t k v ≡ some u
    → j ≢ k
    → slot_lookup u j ≡ slot_lookup t j
lookup-add_other none u k j v e ne =
    ap (λ x. slot_lookup x j) (lookup-add none u k v e) ∙ other k j v ne
lookup-add_other (some (i, w)) u k j v e ne = elim (RibKey-discrete k i) [
  | yes h ↦
      ap (λ x. slot_lookup x j) (lookup-add (some (i, w)) u k v e)
      ∙ other k j v ne
      ∙ sym (other i j w (λ x. ne (x ∙ sym h)))
  | no out ↦
      absurd (none_ne_some (sym (if_neg (RibKey-discrete k i) out (some (some (k, v))) none) ∙ e))
]

pub lookup-del : (t : Slot) (k : RibKey) → slot_lookup (slot_del t k) k ≡ none
lookup-del none k = refl
lookup-del (some (j, v)) k = elim (RibKey-discrete k j) [
  | yes h ↦ ap (λ x. slot_lookup x k) (if_pos (RibKey-discrete k j) h none (some (j, v)))
  | no ne ↦
      ap (λ x. slot_lookup x k) (if_neg (RibKey-discrete k j) ne none (some (j, v)))
      ∙ other j k v ne
]

pub lookup-del_other :
    (t : Slot) (k j : RibKey) → j ≢ k → slot_lookup (slot_del t k) j ≡ slot_lookup t j
lookup-del_other none k j ne = refl
lookup-del_other (some (i, v)) k j ne = elim (RibKey-discrete k i) [
  | yes h ↦
      ap (λ x. slot_lookup x j) (if_pos (RibKey-discrete k i) h none (some (i, v)))
      ∙ sym (other i j v (λ x. ne (x ∙ sym h)))
  | no out ↦ ap (λ x. slot_lookup x j) (if_neg (RibKey-discrete k i) out none (some (i, v)))
]

abbrev pub slot_table : Table RibKey ℤ
slot_table = record {
  Tbl = Slot;
  entries = 1;
  lookup = slot_lookup;
  add = slot_add;
  del = slot_del;
  del_ret = λ t k. elim (slot_lookup t k) [ none ↦ negsuc 1 | some v ↦ pos 0 ];
  iterate = slot_iterate;
  lookup-add_self = λ t u k v e. ap (λ x. slot_lookup x k) (lookup-add t u k v e) ∙ held k v;
  lookup-add_ne = lookup-add_other;
  lookup-del_self = lookup-del;
  iterate_bounds = λ t i n k v e.
      let (_, from, to) = slot_met t i n k v e in (omega (arith, from, to), omega (arith, to));
  iterate-lookup = λ t i n k v e. ap (λ x. slot_lookup x k) (slot_met t i n k v e).0 ∙ held k v;
  lookup-del_ne = lookup-del_other;
}

pub slot_apart :
    (t : Slot) (j k : RibKey) (u v : ℤ)
    → slot_lookup t j ≡ some u
    → slot_lookup t k ≡ some v
    → j ≡ k
slot_apart none j k u v e f = absurd (none_ne_some e)
slot_apart (some (i, w)) j k u v e f = (slot_key i j w u e).0 ∙ sym (slot_key i k w v f).0

pub slot_last :
    (t : Slot) (i : ℕ) (k : RibKey) (v : ℤ)
    → slot_iterate t i ≡ none
    → slot_lookup t k ≡ some v
    → 0 < i
slot_last none i k v e f = absurd (none_ne_some f)
slot_last (some (j, w)) zero k v e f = absurd (none_ne_some (sym e))
slot_last (some (j, w)) (suc i) k v e f = omega arith

abbrev pub slot_walks : Walks slot_table
slot_walks = record {
  slot = λ t k. 0;
  apart = λ t j k u v e f s. slot_apart t j k u v e f;
  stays = λ t j k v e. refl;
  at = λ t i n k v e. (slot_met t i n k v e).2;
  first = λ t i n k j v u e f low. omega arith;
  last = slot_last;
}

abbrev pub slot_env : Env
slot_env = record demo_env { rib = slot_table }
