-- ===== src/Prelude/Strip.antt =====
-- Python's `str.strip`.
use Prim.Native.Nat.{ℕ}
use mathlib.Core.Path.{◌≡◌, refl}
use mathlib.Core.Bool.{Bool, true, false, ◌&&◌, ◌||◌}
use mathlib.Core.List.{[], ◌∷◌, ◌++◌}
use native.Mathlib.Omega.{arith}
use petrosa_cio.Prelude.Tests.{leb, ◌==◌, if◌then◌else◌}
use petrosa_cio.Prelude.Lists.{All}
use petrosa_cio.Prelude.Text.{Str}

-- What `strip` removes.
abbrev pub is_space : ℕ → Bool
is_space c =
    (leb 9 c && leb c 13)
    || (leb 28 c && leb c 32)
    || c == 133
    || c == 160
    || c == 5760
    || (leb 8192 c && leb c 8202)
    || c == 8232
    || c == 8233
    || c == 8239
    || c == 8287
    || c == 12288

unfoldable pub lstrip : Str → Str
lstrip [] = []
lstrip (x ∷ s) = let rest = lstrip s in if is_space x then rest else x ∷ s

unfoldable pub is_nil : Str → Bool
is_nil [] = true
is_nil (x ∷ s) = false

unfoldable pub rstrip : Str → Str
unfolding is_nil
rstrip [] = []
rstrip (x ∷ s) = let rest = rstrip s in if is_space x && is_nil rest then [] else x ∷ rest

unfoldable pub strip : Str → Str
unfolding lstrip rstrip
strip s = rstrip (lstrip s)

-- Texts of blanks.
abbrev pub IsBlank : Str → Type 0
IsBlank = All (λ c. is_space c ≡ true)

pub lstrip_blank :
    (b s : Str) (x : ℕ) → IsBlank b → is_space x ≡ false → lstrip (b ++ x ∷ s) ≡ x ∷ s
unfolding lstrip
lstrip_blank [] s x h k = rw k refl
lstrip_blank (c ∷ b) s x h k = rw (h.0, lstrip_blank b s x h.1 k) refl

rstrip-blank : (b : Str) → IsBlank b → rstrip b ≡ []
unfolding rstrip
rstrip-blank [] h = refl
rstrip-blank (c ∷ b) h = rw (h.0, rstrip-blank b h.1) refl

rstrip_keep : (y : ℕ) (t r : Str) → rstrip t ≡ r → is_nil r ≡ false → rstrip (y ∷ t) ≡ y ∷ r
unfolding rstrip
rstrip_keep y t r e h = rw (rstrip, e, h) (ground arith)

not_nil : (s : Str) (x : ℕ) → is_nil (s ++ x ∷ []) ≡ false
unfolding is_nil
not_nil [] x = refl
not_nil (y ∷ s) x = refl

pub rstrip_last :
    (s b : Str) (x : ℕ) → IsBlank b → is_space x ≡ false → rstrip (s ++ x ∷ b) ≡ s ++ x ∷ []
unfolding rstrip
rstrip_last [] b x h k = rw (k, rstrip-blank b h) refl
rstrip_last (y ∷ s) b x h k =
    rstrip_keep y (s ++ x ∷ b) (s ++ x ∷ []) (rstrip_last s b x h k) (not_nil s x)
