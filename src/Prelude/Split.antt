-- ===== src/Prelude/Split.antt =====
-- Python's `s.split(c)` and `c.join(parts)` on texts, and the slices of a list of parts.
use Prim.Native.Nat.{ℕ}
use mathlib.Core.Path.{◌≡◌, refl, sym, ◌∙◌}
use mathlib.Core.Logic.{inl, inr}
use mathlib.Core.List.{List, [], ◌∷◌, ◌++◌, append_assoc}
use native.Mathlib.Omega.{arith}
use petrosa_cio.Prelude.Tests.{◌==◌, if◌then◌else◌, Bool-cases}
use petrosa_cio.Prelude.Text.{Str}

-- `s.split(c)`, for one character: never empty.
abbrev pub onto_first : ℕ → List Str → List Str
onto_first x [] = (x ∷ []) ∷ []
onto_first x (p ∷ parts) = (x ∷ p) ∷ parts

unfoldable pub split : ℕ → Str → List Str
split c [] = [] ∷ []
split c (x ∷ s) = let rest = split c s in if x == c then [] ∷ rest else onto_first x rest

-- `c.join(parts)`.
unfoldable pub join : ℕ → List Str → Str
join c [] = []
join c (p ∷ []) = p
join c (p ∷ q ∷ parts) = p ++ c ∷ join c (q ∷ parts)

-- `parts[-1]` and `parts[:-1]`, for `parts` of a first part and the others.
unfoldable pub last : Str → List Str → Str
last p [] = p
last p (q ∷ parts) = last q parts

unfoldable pub but_last : List Str → List Str
but_last [] = []
but_last (p ∷ []) = []
but_last (p ∷ q ∷ parts) = p ∷ but_last (q ∷ parts)

join-onto_first : (c x : ℕ) (parts : List Str) → join c (onto_first x parts) ≡ x ∷ join c parts
unfolding join
join-onto_first c x [] = refl
join-onto_first c x (p ∷ []) = refl
join-onto_first c x (p ∷ q ∷ parts) = refl

pub split_cons : (c : ℕ) (s : Str) → (p : Str) × (parts : List Str) × (split c s ≡ p ∷ parts)
unfolding split
split_cons c [] = ([], [], refl)
split_cons c (x ∷ s) = elim (Bool-cases (x == c)) [
  | inl same ↦ ([], split c s, rw same refl)
  | inr other ↦ let (p, parts, e) = split_cons c s in (x ∷ p, parts, rw (other, e) refl)
]

join_nil : (c : ℕ) (s : Str) → join c ([] ∷ split c s) ≡ c ∷ join c (split c s)
unfolding join
join_nil c s = let (p, parts, e) = split_cons c s in rw e refl

pub join-split : (c : ℕ) (s : Str) → join c (split c s) ≡ s
unfolding split join
join-split c [] = refl
join-split c (x ∷ s) = elim (Bool-cases (x == c)) [
  | inl same ↦
      let found : x ≡ c = ground arith in rw same (join_nil c s ∙ rw (join-split c s, found) refl)
  | inr other ↦ rw other (join-onto_first c x (split c s) ∙ rw (join-split c s) refl)
]

onto_first-append :
    (x : ℕ) (p : Str) (parts more : List Str)
    → onto_first x ((p ∷ parts) ++ more) ≡ onto_first x (p ∷ parts) ++ more
onto_first-append x p parts more = refl

pub split-append : (c : ℕ) (s t : Str) → split c (s ++ c ∷ t) ≡ split c s ++ split c t
unfolding split
split-append c [] t = ground arith
split-append c (x ∷ s) t = elim (Bool-cases (x == c)) [
  | inl same ↦ rw (same, split-append c s t) refl
  | inr other ↦ let (p, parts, e) = split_cons c s in rw (other, split-append c s t, e) refl
]

pub last-append : (p q : Str) (parts : List Str) → last p (parts ++ q ∷ []) ≡ q
unfolding last
last-append p q [] = refl
last-append p q (r ∷ parts) = last-append r q parts

pub but_last-append : (q : Str) (parts : List Str) → but_last (parts ++ q ∷ []) ≡ parts
unfolding but_last
but_last-append q [] = refl
but_last-append q (r ∷ []) = refl
but_last-append q (r ∷ u ∷ parts) = rw (but_last-append q (u ∷ parts)) refl

-- Two parts or more are those before the last, joined, and the last.
pub join-last :
    (c : ℕ) (p q r : Str) (parts : List Str)
    → join c (q ∷ r ∷ parts) ≡ join c (but_last (q ∷ r ∷ parts)) ++ c ∷ last p (q ∷ r ∷ parts)
unfolding join but_last last
join-last c p q r [] = refl
join-last c p q r (u ∷ parts) = rw (join-last c q r u parts) (sym (append_assoc q _ _))
