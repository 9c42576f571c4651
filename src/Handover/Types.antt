-- ===== src/Handover/Types.antt =====
-- `filter_ho_types` for one type and for all four.
use emulator_test.Prelude.{
  ◌≤◌, ◌+◌, ◌≡◌, refl, ◌⊎◌, List, [], ◌∷◌, ◌++◌, ◌&&◌, Bool, append-snoc, append-nil, count, length,
  leb, arith, All, if◌then◌else◌, ok, raised, index_error,
}
use emulator_test.Prelude.Int.{ℤ, pos, eq_ℤ}
use emulator_test.Handover.{types_loop, filter_ho_types}

-- The links of the traces.
abbrev pub IsLink : ℤ → Type 0
IsLink l = (l ≡ pos 1) ⊎ (l ≡ pos 2)

module _ {ℓ} {F : Type ℓ} where
  -- The times of the handovers from one link to another, where each handover leaves the link that the
  -- one before it reached.
  abbrev pub moves : ℤ → ℤ → ℤ → List F → List ℤ → List F
  moves from to prev [] links = []
  moves from to prev (t ∷ ts) [] = []
  moves from to prev (t ∷ ts) (l ∷ ls) =
      if eq_ℤ prev from && eq_ℤ l to then t ∷ moves from to l ts ls else moves from to l ts ls

  types_loop-eq :
      (from to prev : ℤ) (ts : List F) (ls : List ℤ) (out : List F)
      → types_loop from to prev ts ls out ≡ (
          if leb (length ts) (length ls)
          then ok (out ++ moves from to prev ts ls)
          else raised index_error)
  unfolding types_loop
  types_loop-eq from to prev [] ls out = ground (arith, append-nil out)
  types_loop-eq from to prev (t ∷ ts) [] out = ground arith
  types_loop-eq from to prev (t ∷ ts) (l ∷ ls) out = ground (
    arith,
    types_loop-eq from to l ts ls out,
    types_loop-eq from to l ts ls (out ++ t ∷ []),
    append-snoc out (moves from to l ts ls) t,
  )

  -- Of a type other than [0, 0], `filter_ho_types` returns the handovers of that type in order if there
  -- is a target link for each handover, and raises IndexError if there is not.
  pub filter_ho_types-eq :
      (ts : List F) (ls : List ℤ) (from to initial : ℤ)
      → (eq_ℤ from (pos 0) && eq_ℤ to (pos 0)) ≡ Bool.false
      → filter_ho_types ts ls from to initial ≡ (
          if leb (length ts) (length ls)
          then ok (moves from to initial ts ls)
          else raised index_error)
  unfolding filter_ho_types
  filter_ho_types-eq ts ls from to initial h = rw h (types_loop-eq from to initial ts ls [])

  moves_share :
      (p : F → Bool) (prev : ℤ) (ts : List F) (ls : List ℤ)
      → length ts ≤ length ls
      → IsLink prev
      → All IsLink ls
      → count p ts
        ≡ count p (moves (pos 1) (pos 1) prev ts ls)
          + count p (moves (pos 1) (pos 2) prev ts ls)
          + count p (moves (pos 2) (pos 2) prev ts ls)
          + count p (moves (pos 2) (pos 1) prev ts ls)
  unfolding eq_ℤ
  moves_share p prev [] ls h hp hl = refl
  moves_share p prev (t ∷ ts) [] h hp hl = absurd (omega arith)
  moves_share p prev (t ∷ ts) (l ∷ ls) h hp hl = ground (arith, moves_share p l ts ls)

  -- Where every handover has a target link, and the links are 1 and 2, the calls for the four types
  -- [1, 1], [1, 2], [2, 2] and [2, 1] return, and between them they hold every handover once: for any
  -- test the numbers of handovers that pass it add up.
  pub filter_ho_types_partition :
      (ts : List F) (ls : List ℤ) (initial : ℤ)
      → length ts ≤ length ls
      → IsLink initial
      → All IsLink ls
      → (a b c d : List F) × (filter_ho_types ts ls (pos 1) (pos 1) initial ≡ ok a)
        × (filter_ho_types ts ls (pos 1) (pos 2) initial ≡ ok b)
        × (filter_ho_types ts ls (pos 2) (pos 2) initial ≡ ok c)
        × (filter_ho_types ts ls (pos 2) (pos 1) initial ≡ ok d)
        × ((p : F → Bool) → count p ts ≡ count p a + count p b + count p c + count p d)
  unfolding eq_ℤ
  filter_ho_types_partition ts ls initial h hi hl = (
    moves (pos 1) (pos 1) initial ts ls,
    moves (pos 1) (pos 2) initial ts ls,
    moves (pos 2) (pos 2) initial ts ls,
    moves (pos 2) (pos 1) initial ts ls,
    ground (arith, filter_ho_types-eq ts ls (pos 1) (pos 1) initial refl),
    ground (arith, filter_ho_types-eq ts ls (pos 1) (pos 2) initial refl),
    ground (arith, filter_ho_types-eq ts ls (pos 2) (pos 2) initial refl),
    ground (arith, filter_ho_types-eq ts ls (pos 2) (pos 1) initial refl),
    λ p. moves_share p initial ts ls h hi hl,
  )
