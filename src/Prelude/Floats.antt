-- ===== src/Prelude/Floats.antt =====
-- Python's floats as an interface: the operations that the code uses, and the laws of their order,
-- which hold of every float but `nan`.
use Prim.Native.Nat.{ℕ, ◌*◌, ◌≤◌, ◌<◌}
use mathlib.Core.Path.{◌≡◌}
use mathlib.Core.Bool.{Bool, true, false}
use petrosa_cio.Prelude.Tests.{if◌then◌else◌, Bool-cases}
use mathlib.Core.Logic.{inl, inr}

-- `lit n d` is the literal of the number n / d.
pub record Floats (F : Type 0) : Type 0 where
  pub leb : F → F → Bool
  pub ltb : F → F → Bool
  pub add : F → F → F
  pub sub : F → F → F
  pub mul : F → F → F
  pub div : F → F → F
  pub lit : ℕ → ℕ → F

module _ {F : Type 0} (O : Floats F) where
  abbrev pub zero_F : F
  zero_F = O.lit 0 1

  -- Python's `min` and `max`: the first, unless the second is strictly beyond it.
  abbrev pub min_F : F → F → F
  min_F a b = if O.ltb b a then b else a

  abbrev pub max_F : F → F → F
  max_F a b = if O.ltb a b then b else a

  -- The laws of the order; multiplication by a number up to 1 does not enlarge.
  pub record IsOrdered : Type 0 where
    pub trans : (a b c : F) → O.leb a b ≡ true → O.leb b c ≡ true → O.leb a c ≡ true
    pub le_of_lt : (a b : F) → O.ltb a b ≡ true → O.leb a b ≡ true
    pub le_of_not_lt : (a b : F) → O.ltb a b ≡ false → O.leb b a ≡ true
    pub lit_le :
        (n d m e : ℕ) → 0 < d → 0 < e → n * e ≤ m * d → O.leb (O.lit n d) (O.lit m e) ≡ true
    pub mul_nonneg :
        (a b : F)
        → O.leb (O.lit 0 1) a ≡ true
        → O.leb (O.lit 0 1) b ≡ true
        → O.leb (O.lit 0 1) (O.mul a b) ≡ true
    pub mul_shrinks :
        (a : F) (n d : ℕ)
        → 0 < d
        → n ≤ d
        → O.leb (O.lit 0 1) a ≡ true
        → O.leb (O.mul a (O.lit n d)) a ≡ true

  module _ (laws : IsOrdered) where
    open laws use {le_of_lt, le_of_not_lt, trans}

    pub refl_F : (a : F) → O.leb a a ≡ true
    refl_F a = elim (Bool-cases (O.ltb a a)) [ inl h ↦ le_of_lt a a h | inr h ↦ le_of_not_lt a a h ]

    pub min-le_left : (a b : F) → O.leb (min_F a b) a ≡ true
    min-le_left a b = elim (Bool-cases (O.ltb b a)) [
      | inl h ↦ rw h (le_of_lt b a h)
      | inr h ↦ rw h (refl_F a)
    ]

    pub min-le_right : (a b : F) → O.leb (min_F a b) b ≡ true
    min-le_right a b = elim (Bool-cases (O.ltb b a)) [
      | inl h ↦ rw h (refl_F b)
      | inr h ↦ rw h (le_of_not_lt b a h)
    ]

    pub le-min : (a b c : F) → O.leb c a ≡ true → O.leb c b ≡ true → O.leb c (min_F a b) ≡ true
    le-min a b c h k = elim (Bool-cases (O.ltb b a)) [ inl e ↦ rw e k | inr e ↦ rw e h ]

    pub le-max_left : (a b : F) → O.leb a (max_F a b) ≡ true
    le-max_left a b = elim (Bool-cases (O.ltb a b)) [
      | inl h ↦ rw h (le_of_lt a b h)
      | inr h ↦ rw h (refl_F a)
    ]

    pub max-le : (a b c : F) → O.leb a c ≡ true → O.leb b c ≡ true → O.leb (max_F a b) c ≡ true
    max-le a b c h k = elim (Bool-cases (O.ltb a b)) [ inl e ↦ rw e k | inr e ↦ rw e h ]
