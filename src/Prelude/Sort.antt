-- ===== src/Prelude/Sort.antt =====
-- The keys of dictionaries in the order of `sorted`, each once.
use mathlib.Core.Logic.{ite}
use mathlib.Core.Bool.{Bool, true, false}
use mathlib.Core.List.{List, [], ◌∷◌}
use petrosa_cio.Prelude.Tests.{ltb, ◌==◌, if◌then◌else◌}
use petrosa_cio.Prelude.Text.{Str, Str-discrete}

-- The order of texts, by code points.
unfoldable pub before : Str → Str → Bool
before [] [] = false
before [] (y ∷ t) = true
before (x ∷ s) [] = false
before (x ∷ s) (y ∷ t) =
    let rest = before s t in if ltb x y then true else if x == y then rest else false

-- `sorted(set(…))`, a key at a time.
unfoldable pub insert_sorted : Str → List Str → List Str
unfolding before
insert_sorted k [] = k ∷ []
insert_sorted k (j ∷ keys) =
    let rest = insert_sorted k keys in
    ite (Str-discrete k j) (j ∷ keys) (if before k j then k ∷ j ∷ keys else j ∷ rest)

unfoldable pub sorted_keys {ℓ} : {V : Type ℓ} → List (Str × V) → List Str → List Str
unfolding insert_sorted
sorted_keys [] keys = keys
sorted_keys ((k, v) ∷ m) keys = insert_sorted k (sorted_keys m keys)
