-- ===== src/Evaluators/Listing.antt =====
-- The listing of `paused_subsystems` against the answers of `is_paused`.
use petrosa_cio.Prelude.{
  false_ne_true, some-ne-none, if_neg, if_pos, ◌∙◌, sym, subst, Str, Str-discrete, ◌≡◌, ◌≢◌, refl,
  ◌⊎◌, inl, inr, ◌↔◌, true, Bool-cases, none, Option-cases, List, [], ◌∷◌, Any, arith,
}
use petrosa_cio.Prelude.Dict.{lookup}
use petrosa_cio.Prelude.Sort.{insert_sorted, sorted_keys, before}
use petrosa_cio.Evaluators.{
  EvaluatorSubscriber, Row, was_unhealthy, is_paused, effective, row_of, rows, paused_subsystems,
}

is_paused-effective :
    (s : EvaluatorSubscriber) (k : Str) → is_paused s k ≡ was_unhealthy (effective (row_of s k))
unfolding is_paused effective was_unhealthy
is_paused-effective s k = ground arith

-- A key is in the listing.
abbrev pub Listed : Str → List Row → Type 0
Listed k = Any (λ r. r.subsystem ≡ k)

abbrev Key : Str → List Str → Type 0
Key k = Any (λ j. j ≡ k)

Listed-rows :
    (s : EvaluatorSubscriber) (k : Str) (keys : List Str)
    → Listed k (rows s keys) ↔ (Key k keys × (is_paused s k ≡ true))
unfolding rows
Listed-rows s k [] = (λ h. absurd h, λ h. absurd h.0)
Listed-rows s k (j ∷ keys) =
    let rest = Listed-rows s k keys in
    let is_j : j ≡ k → is_paused s k ≡ was_unhealthy (effective (row_of s j)) = λ same.
      subst (λ x. is_paused s x ≡ was_unhealthy (effective (row_of s j))) same
        (is_paused-effective s j) in
    elim (Bool-cases (was_unhealthy (effective (row_of s j)))) [
      | inl on ↦ rw on (
        λ h. elim h [
          | inl same ↦ (inl same, is_j same ∙ on)
          | inr more ↦ (inr (rest.0 more).0, (rest.0 more).1)
        ],
        λ h. elim h.0 [ inl same ↦ inl same | inr more ↦ inr (rest.1 (more, h.1)) ],
      )
      | inr off ↦ rw off (
        λ h. (inr (rest.0 h).0, (rest.0 h).1),
        λ h. elim h.0 [
          | inl same ↦ absurd (false_ne_true (sym (is_j same ∙ off) ∙ h.1))
          | inr more ↦ rest.1 (more, h.1)
        ],
      )
    ]

Key-insert_sorted :
    (k j : Str) (keys : List Str) → Key k (insert_sorted j keys) ↔ ((j ≡ k) ⊎ Key k keys)
unfolding insert_sorted
Key-insert_sorted k j [] = (λ h. h, λ h. h)
Key-insert_sorted k j (i ∷ keys) = elim (Str-discrete j i) [
  | yes same ↦
      rw (if_pos _ same) (λ h. inr h, λ h. elim h [ inl e ↦ inl (sym same ∙ e) | inr m ↦ m ])
  | no other ↦ rw (if_neg _ other) (elim (Bool-cases (before j i)) [
    | inl first ↦ rw first (λ h. h, λ h. h)
    | inr later ↦
        let rest = Key-insert_sorted k j keys in
        rw later (
          λ h. elim h [
            | inl e ↦ inr (inl e)
            | inr m ↦ elim (rest.0 m) [ inl e ↦ inl e | inr n ↦ inr (inr n) ]
          ],
          λ h. elim h [
            | inl e ↦ inr (rest.1 (inl e))
            | inr m ↦ elim m [ inl e ↦ inl e | inr n ↦ inr (rest.1 (inr n)) ]
          ],
        )
  ])
]

-- The sorted keys are the old ones and those of the dictionary.
Key-sorted_keys :
    {V : Type 0} (m : List (Str × V)) (keys : List Str) (k : Str)
    → (lookup Str-discrete k m ≢ none) ⊎ Key k keys
    → Key k (sorted_keys m keys)
unfolding sorted_keys lookup
Key-sorted_keys [] keys k (inl h) = absurd (h refl)
Key-sorted_keys [] keys k (inr h) = h
Key-sorted_keys ((j, v) ∷ m) keys k h =
    let add = Key-insert_sorted k j (sorted_keys m keys) in
    elim (Str-discrete j k) [
      | yes same ↦ add.1 (inl same)
      | no other ↦ elim h [
        | inl found ↦ add.1 (
            inr (
              Key-sorted_keys m keys k
                (inl (λ absent. found (if_neg (Str-discrete j k) other _ _ ∙ absent)))))
        | inr old ↦ add.1 (inr (Key-sorted_keys m keys k (inr old)))
      ]
    ]

known :
    (s : EvaluatorSubscriber) (k : Str)
    → is_paused s k ≡ true
    → (lookup Str-discrete k s.verdicts ≢ none) ⊎ Key k (sorted_keys s.overrides [])
unfolding is_paused was_unhealthy
known s k h = elim (Option-cases (lookup Str-discrete k s.overrides)) [
  | inl absent ↦ inl (λ unseen. ground (arith, absent, unseen))
  | inr (v, found) ↦
      inr (Key-sorted_keys s.overrides [] k (inl (λ absent. some-ne-none v (sym found ∙ absent))))
]

-- A subsystem is in the listing exactly if it is paused, whether a verdict or an override pauses
-- it, and whether a verdict on it was ever seen.
pub paused_subsystems_iff :
    (s : EvaluatorSubscriber) (k : Str) → Listed k (paused_subsystems s) ↔ (is_paused s k ≡ true)
unfolding paused_subsystems
paused_subsystems_iff s k =
    let keys = sorted_keys s.verdicts (sorted_keys s.overrides []) in
    let all = Listed-rows s k keys in
    (
      λ h. (all.0 h).1,
      λ h. all.1 (Key-sorted_keys s.verdicts (sorted_keys s.overrides []) k (known s k h), h),
    )
