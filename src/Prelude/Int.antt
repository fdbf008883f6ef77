-- ===== src/Prelude/Int.antt =====
-- The integers that an index of Python takes: a number from the start, or one from the end.
use Prim.Native.Nat.{ℕ, zero, suc, ◌-◌}
use mathlib.Core.Bool.{Bool, true}
use mathlib.Core.List.{List}
use mathlib.Core.Option.{Option, none}
use feature_frontend.Prelude.Tests.{ltb, if◌then◌else◌}
use feature_frontend.Prelude.Lists.{length, get_elem?, take, drop}

-- `negsuc n` is -(n + 1).
pub data ℤ : Type 0 where
  pos : ℕ → ℤ
  negsuc : ℕ → ℤ

-- `int(n) - 1`
abbrev pub pred_ℤ : ℕ → ℤ
pred_ℤ zero = negsuc 0
pred_ℤ (suc n) = pos n

abbrev pub suc_ℤ : ℤ → ℤ
suc_ℤ (pos n) = pos (suc n)
suc_ℤ (negsuc zero) = pos 0
suc_ℤ (negsuc (suc n)) = negsuc n

-- `i < n`
abbrev pub ltb_ℤ : ℤ → ℕ → Bool
ltb_ℤ (pos i) n = ltb i n
ltb_ℤ (negsuc i) n = true

module _ {ℓ} {A : Type ℓ} where
  -- A slice's bound: one from the end is counted from the start, and both are clipped.
  abbrev pub bound : ℤ → List A → ℕ
  bound (pos i) xs = i
  bound (negsuc i) xs = length xs - suc i

  -- `xs[i:]`
  abbrev pub slice_from : List A → ℤ → List A
  slice_from xs i = drop (bound i xs) xs

  -- `xs[i:j]`
  abbrev pub slice : List A → ℤ → ℤ → List A
  slice xs i j = drop (bound i xs) (take (bound j xs) xs)

  -- `xs[i]`; `none` is the IndexError.
  abbrev pub index? : List A → ℤ → Option A
  index? xs (pos i) = get_elem? xs i
  index? xs (negsuc i) = if ltb i (length xs) then get_elem? xs (length xs - suc i) else none
