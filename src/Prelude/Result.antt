-- ===== src/Prelude/Result.antt =====
-- Fallible code: a value, an error that the code returns, or a panic (an index out of range, a
-- slice of the wrong length, an overflow that the library checks).
use mathlib.Core.Path.{◌≡◌, refl}
use mathlib.Core.Bool.{Bool, true, false, ◌&&◌}
use mathlib.Core.List.{List}
use mathlib.Core.Option.{Option, none, some}
use mathlib.Core.Logic.{◌⊎◌, inl, inr}
use Prim.Native.Nat.{ℕ, ◌-◌}
use btc_parachain.Prelude.Tests.{leb, if◌then◌else◌}
use btc_parachain.Prelude.Lists.{length, get_elem?, take, drop}

pub data Result (E A : Type 0) : Type 0 where
  ok : A → Result E A
  err : E → Result E A
  panic : Result E A

infixl 5 ◌>>=◌ ◌>>◌
abbrev pub ◌>>=◌ : {E A B : Type 0} → Result E A → (A → Result E B) → Result E B
ok a >>= f = f a
err e >>= f = err e
panic >>= f = panic

abbrev pub ◌>>◌ : {E B : Type 0} → Result E (Unit {0}) → Result E B → Result E B
m >> k = m >>= λ _. k

-- `if c { return Err(e); }`
abbrev pub fail_if : {E : Type 0} → Bool → E → Result E (Unit {0})
fail_if true e = err e
fail_if false e = ok tt

-- `.map_err(|_| e)`
abbrev pub map_err : {E F A : Type 0} → F → Result E A → Result F A
map_err f (ok a) = ok a
map_err f (err e) = err f
map_err f panic = panic

-- `.ok_or(e)`
abbrev pub ok_or : {E A : Type 0} → E → Option A → Result E A
ok_or e none = err e
ok_or e (some a) = ok a

-- `xs[i]` panics out of range.
abbrev pub index : {E A : Type 0} → List A → ℕ → Result E A
index xs i = elim (get_elem? xs i) [ none ↦ panic | some x ↦ ok x ]

-- `xs[a..b]` panics where the ends are out of order or out of range.
abbrev pub slice : {E A : Type 0} → List A → ℕ → ℕ → Result E (List A)
slice xs a b = if leb a b && leb b (length xs) then ok (take (b - a) (drop a xs)) else panic

-- `xs[a..]`
abbrev pub slice_from : {E A : Type 0} → List A → ℕ → Result E (List A)
slice_from xs a = if leb a (length xs) then ok (drop a xs) else panic

-- To split on a result and keep the equation.
pub Result-cases :
    {E A : Type 0} (m : Result E A) → ((a : A) × (m ≡ ok a)) ⊎ ((e : E) × (m ≡ err e)) ⊎ (m ≡ panic)
Result-cases (ok a) = inl (a, refl)
Result-cases (err e) = inr (inl (e, refl))
Result-cases panic = inr (inr refl)
