-- ===== src/Prelude/Lists.antt =====
-- Lists measured by native numbers, and predicates over their members.
use Prim.Native.Nat.{ℕ, zero, suc, ◌+◌}
use mathlib.Core.Path.{◌≡◌}
use mathlib.Core.Logic.{◌⊎◌, inl, inr, ite}
use mathlib.Core.Bool.{Bool, true, false}
use mathlib.Core.List.{List, [], ◌∷◌, ◌++◌, map}
use petrosa_cio.Prelude.Tests.{if◌then◌else◌, ltb, leb}
use native.Mathlib.Omega.{arith}

module _ {ℓ} {A : Type ℓ} where
  abbrev pub length : List A → ℕ
  length [] = 0
  length (x ∷ xs) = suc (length xs)

  pub length-append : (xs ys : List A) → length (xs ++ ys) ≡ length xs + length ys
  length-append [] ys = omega arith
  length-append (x ∷ xs) ys = omega (arith, length-append xs ys)

-- `xs[:n]`.
abbrev pub take {ℓ} : {A : Type ℓ} → ℕ → List A → List A
take zero xs = []
take (suc n) [] = []
take (suc n) (x ∷ xs) = x ∷ take n xs

-- `deque(maxlen=…).append`: from the left, what no longer fits is dropped.
unfoldable pub append_bounded {ℓ} : {A : Type ℓ} → ℕ → List A → A → List A
append_bounded maxlen [] x = if ltb 0 maxlen then x ∷ [] else []
append_bounded maxlen (y ∷ ys) x =
    if leb maxlen (suc (length ys)) then ys ++ x ∷ [] else y ∷ ys ++ x ∷ []

-- A predicate that holds of every member.
abbrev pub All {ℓ κ} : {A : Type ℓ} → (A → Type κ) → List A → Type κ
All P [] = Unit
All P (x ∷ xs) = P x × All P xs

pub All-append {ℓ κ} :
    {A : Type ℓ} (P : A → Type κ) (xs ys : List A) → All P xs → All P ys → All P (xs ++ ys)
All-append P [] ys hx hy = hy
All-append P (x ∷ xs) ys hx hy = (hx.0, All-append P xs ys hx.1 hy)

-- A predicate that holds of some member, with the member's place kept.
abbrev pub Any {ℓ} : {A : Type ℓ} → (A → Type 0) → List A → Type 0
Any P [] = ⊥
Any P (x ∷ xs) = P x ⊎ Any P xs

module _ {ℓ} {A : Type ℓ} (P : A → Type 0) where
  pub Any-append_left : (xs ys : List A) → Any P xs → Any P (xs ++ ys)
  Any-append_left [] ys h = absurd h
  Any-append_left (x ∷ xs) ys (inl h) = inl h
  Any-append_left (x ∷ xs) ys (inr h) = inr (Any-append_left xs ys h)

  pub Any-append_right : (xs ys : List A) → Any P ys → Any P (xs ++ ys)
  Any-append_right [] ys h = h
  Any-append_right (x ∷ xs) ys h = inr (Any-append_right xs ys h)

pub All-if {ℓ κ} :
    {A : Type ℓ} (P : A → Type κ) (b : Bool) (xs ys : List A)
    → All P xs
    → All P ys
    → All P (if b then xs else ys)
All-if P true xs ys h k = h
All-if P false xs ys h k = k

pub All-ite {ℓ κ μ} :
    {A : Type ℓ} (P : A → Type κ) {Q : Type μ} (d : Dec Q) (xs ys : List A)
    → (Q → All P xs)
    → All P ys
    → All P (ite d xs ys)
All-ite P (yes q) xs ys h k = h q
All-ite P (no q) xs ys h k = k

pub All-map {ℓ μ κ} :
    {A : Type ℓ} {B : Type μ} (P : B → Type κ) (f : A → B) (xs : List A)
    → ((x : A) → P (f x))
    → All P (map f xs)
All-map P f [] h = tt
All-map P f (x ∷ xs) h = (h x, All-map P f xs h)

pub All-mono {ℓ κ μ} :
    {A : Type ℓ} {P : A → Type κ} {Q : A → Type μ} (xs : List A)
    → ((x : A) → P x → Q x)
    → All P xs
    → All Q xs
All-mono [] h k = tt
All-mono (x ∷ xs) h k = (h x k.0, All-mono xs h k.1)
