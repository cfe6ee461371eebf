-- ===== src/Prelude/Float.antt =====
-- What the code does with a `float`: literals, the four operations, comparisons, `round`. The
-- arithmetic of IEEE 754 is the interpreter's and stays abstract: a theorem of this library holds
-- whatever it rounds to, and names the law that it needs where it needs one.
use Prim.Native.Nat.{ℕ, ◌+◌, ◌-◌, ◌*◌, ◌/◌, ◌^◌}
use mathlib.Core.Bool.{Bool}
use mathlib.Core.List.{List, foldl}
use maestro_orchestrator.Prelude.Tests.{ltb, leb, nat_beq, if◌then◌else◌}
use maestro_orchestrator.Prelude.Lists.{length}

pub record Float {ℓ} (F : Type ℓ) : Type ℓ where
  -- `lit m k` is the literal m / 10^k, and the conversion of an int where k is 0.
  pub lit : ℕ → ℕ → F
  pub add : F → F → F
  pub sub : F → F → F
  pub mul : F → F → F
  pub div : F → F → F
  pub lt : F → F → Bool
  pub le : F → F → Bool
  pub eq : F → F → Bool
  -- round(x, 4)
  pub round4 : F → F

module _ {ℓ} {F : Type ℓ} ⦃f : Float F⦄ where
  -- sum(xs): the additions go from the left, from 0.
  abbrev pub sum : List F → F
  sum xs = foldl f.add (f.lit 0 0) xs

  -- sum(xs) / len(xs)
  abbrev pub mean : List F → F
  mean xs = f.div (sum xs) (f.lit (length xs) 0)

module _ {ℓ} {F : Type ℓ} ⦃f : Float F⦄ where
  -- max(0.0, min(1.0, x)); of equal arguments Python takes the first.
  unfoldable pub clamped : F → F
  clamped x =
      let m = if f.lt x (f.lit 1 0) then x else f.lit 1 0 in
      if f.lt (f.lit 0 0) m then m else f.lit 0 0

-- Fixed point numbers with four digits, for examples.
abbrev pub Fixed : Type 0
Fixed = ℕ

instance abbrev pub fixed_float : Float Fixed
fixed_float = record {
  lit = λ m k. m * 10000 / 10 ^ k;
  add = λ a b. a + b;
  sub = λ a b. a - b;
  mul = λ a b. a * b / 10000;
  div = λ a b. a * 10000 / b;
  lt = ltb;
  le = leb;
  eq = nat_beq;
  round4 = λ a. a;
}
