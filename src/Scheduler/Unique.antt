-- ===== src/Scheduler/Unique.antt =====
-- The order of a schedule determines it, so that it does not matter how `qsort` finds it.
use emulator_test.Prelude.{◌≡◌, sym, ap, ◌∙◌, inl, inr, List, [], ◌∷◌, arith}
use mathlib.Core.Path.{subst}
use mathlib.Core.Logic.Or
use native.Mathlib.Bridge.{le_prop}
use native.Mathlib.Nat.{ℕ_set}
use mathlib.Core.HLevel.{×_prop}
use mathlib.Core.List.{
  Perm, forall_mem-cons, not-mem-nil, Pairwise, Mem, mem-cons_self, eq-or-mem_of_mem-cons,
}
use mathlib.Core.List.Perm
use emulator_test.Scheduler.{Event, scheduler_compare_event}
use emulator_test.Scheduler.Order.{InOrder, IsAfter}

module _ {ℓ} {H : Type ℓ} where
  InOrder-asymm : (a b : Event H) → InOrder a b → InOrder b a → ⊥
  unfolding InOrder
  InOrder-asymm a b h k = ground arith

  pub InOrder-trans : (a b c : Event H) → InOrder a b → InOrder b c → InOrder a c
  unfolding InOrder
  InOrder-trans a b c h k = ground arith

  module _ (set : IsSet (Event H)) where
    same_head :
        (x : Event H) (xs : List (Event H)) (y : Event H) (ys : List (Event H))
        → Perm (x ∷ xs) (y ∷ ys)
        → Pairwise InOrder (x ∷ xs)
        → Pairwise InOrder (y ∷ ys)
        → x ≡ y
    same_head x xs y ys p (Pairwise.cons hx _) (Pairwise.cons hy _) =
        Or.elim (set x y) (eq-or-mem_of_mem-cons ((Perm.mem_iff p).0 (mem-cons_self))) (λ e. e)
          (λ m.
            Or.elim (set x y) (eq-or-mem_of_mem-cons ((Perm.mem_iff p).1 (mem-cons_self)))
              (λ e. sym e) (λ m'. absurd (InOrder-asymm x y (hx y m') (hy x m))))

    -- Two schedules of the same events that are both in order are equal.
    pub schedule_unique :
        (xs ys : List (Event H)) → Perm xs ys → Pairwise InOrder xs → Pairwise InOrder ys → xs ≡ ys
    schedule_unique [] ys p hx hy = Perm.nil-eq p
    schedule_unique (x ∷ xs) [] p hx hy = Perm.eq-nil p
    schedule_unique (x ∷ xs) (y ∷ ys) p (Pairwise.cons hx px) (Pairwise.cons hy py) =
        let e = same_head x xs y ys p (Pairwise.cons hx px) (Pairwise.cons hy py) in
        let p' = subst (λ z. Perm (x ∷ xs) (z ∷ ys)) (sym e) p in
        ap (◌∷◌ x) (schedule_unique xs ys (Perm.cons_inv p') px py) ∙ ap (λ z. z ∷ ys) e

  InOrder-prop : (a b : Event H) → IsProp (InOrder a b)
  unfolding InOrder
  InOrder-prop a b (inl h) (inl k) = ap inl (le_prop h k)
  InOrder-prop a b (inl h) (inr k) = absurd (ground arith)
  InOrder-prop a b (inr h) (inl k) = absurd (ground arith)
  InOrder-prop a b (inr (e, h)) (inr (e', k)) =
      ap inr (×_prop (ℕ_set a.time b.time) le_prop (e, h) (e', k))

  -- Each event is in order with the next one.
  abbrev pub IsChain : List (Event H) → Type 0
  IsChain [] = Unit
  IsChain (a ∷ []) = Unit
  IsChain (a ∷ b ∷ es) = InOrder a b × IsChain (b ∷ es)

  first_before :
      (a : Event H) (es : List (Event H))
      → IsChain (a ∷ es)
      → (b : Event H) → Mem b es
      → InOrder a b
  first_before a [] c = λ b m. absurd (not-mem-nil m)
  first_before a (b ∷ es) (h, c) =
      (forall_mem-cons (InOrder-prop a)).1
        (h, λ d m. InOrder-trans a b d h (first_before b es c d m))

  pub chain-Pairwise : (es : List (Event H)) → IsChain es → Pairwise InOrder es
  chain-Pairwise [] c = Pairwise.nil
  chain-Pairwise (a ∷ []) c = Pairwise.cons (first_before a [] c) Pairwise.nil
  chain-Pairwise (a ∷ b ∷ es) c =
      Pairwise.cons (first_before a (b ∷ es) c) (chain-Pairwise (b ∷ es) c.1)

  -- What a comparison leaves in order is not after another.
  pub InOrder-not_after : (a b : Event H) → InOrder a b → ¬ IsAfter a b
  unfolding InOrder IsAfter scheduler_compare_event
  InOrder-not_after a b h = ground arith
