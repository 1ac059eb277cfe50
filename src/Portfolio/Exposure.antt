-- ===== src/Portfolio/Exposure.antt =====
-- What admissions and exits do to the positions and to their total exposure.
use petrosa_cio.Prelude.{
  ◌+◌, ◌≤◌, ◌≡◌, refl, ite, some, Str, Str-discrete, if_pos, if_neg, [], ◌∷◌, arith,
}
use petrosa_cio.Prelude.Int.{ℤ}
use petrosa_cio.Prelude.Dict.{lookup, lookup-insert, insert, erase}
use petrosa_cio.Portfolio.{
  Position, Positions, contribution, position_of, record_admit, record_exit, total,
}

total-insert :
    (id : Str) (p : Position) (m : Positions)
    → total (insert Str-discrete id p m) ≤ contribution p + total m
unfolding total insert
total-insert id p [] = omega arith
total-insert id p ((j, q) ∷ m) = elim (Str-discrete j id) [
  | yes same ↦ rw (if_pos _ same) (omega arith)
  | no other ↦ rw (if_neg _ other) (omega (arith, total-insert id p m))
]

-- An admission adds at most the exposure of the admitted position.
pub total-record_admit :
    (m : Positions) (id : Str) (size leverage : ℤ)
    → total (record_admit m id size leverage) ≤ total m + contribution (position_of size leverage)
unfolding record_admit
total-record_admit m [] size leverage = omega arith
total-record_admit m (c ∷ id) size leverage =
    omega (arith, total-insert (c ∷ id) (position_of size leverage) m)

-- An exit adds nothing.
pub total-record_exit : (m : Positions) (id : Str) → total (record_exit m id) ≤ total m
unfolding total record_exit erase
total-record_exit [] id = omega arith
total-record_exit ((j, q) ∷ m) id = elim (Str-discrete j id) [
  | yes same ↦ rw (if_pos _ same) (omega (arith, total-record_exit m id))
  | no other ↦ rw (if_neg _ other) (omega (arith, total-record_exit m id))
]

-- The position stands in the ledger under the strategy, and every other one as before; a strategy
-- without a name leaves the ledger alone.
abbrev pub IsAdded : Str → Position → Positions → Positions → Type 0
IsAdded [] p before after = after ≡ before
IsAdded (x ∷ s) p before after =
    (k : Str)
    → lookup Str-discrete k after
      ≡ ite (Str-discrete (x ∷ s) k) (some p) (lookup Str-discrete k before)

-- An admission adds its position and nothing else.
pub record_admit-IsAdded :
    (m : Positions) (id : Str) (size leverage : ℤ)
    → IsAdded id (position_of size leverage) m (record_admit m id size leverage)
unfolding record_admit
record_admit-IsAdded m [] size leverage = refl
record_admit-IsAdded m (x ∷ s) size leverage =
    λ k. lookup-insert Str-discrete (x ∷ s) k (position_of size leverage) m
