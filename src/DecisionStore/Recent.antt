-- ===== src/DecisionStore/Recent.antt =====
-- What `recent` lists after a sequence of calls of `record`.
use petrosa_cio.Prelude.{
  append_bounded, ltb→lt, leb→le, ℕ, zero, suc, ◌-◌, ◌≤◌, Str, ◌≡◌, refl, sym, ap, ◌∙◌, Bool, false,
  Bool-cases, inl, inr, leb, ltb, ◌==◌, if◌then◌else◌, Option, none, some, List, [], ◌∷◌, ◌++◌,
  foldl, length, length-append, append_assoc, append-nil, All, All-mono, arith,
}
use petrosa_cio.DecisionStore.{
  Entry, record_decision, select, is_of, of_strategy, insert_newest, sort_newest, recent,
}

-- `xs[n:]`.
abbrev pub drop : {A : Type 0} → ℕ → List A → List A
drop zero xs = xs
drop (suc n) [] = []
drop (suc n) (x ∷ xs) = drop n xs

-- The last of them, as many as fit.
abbrev pub last_of : ℕ → List Entry → List Entry
last_of maxlen rs = drop (length rs - maxlen) rs

-- Those of one time.
abbrev pub at : ℕ → List Entry → List Entry
at t = select (λ r. r.timestamp == t)

-- No time is later than the one before it.
abbrev pub IsNewestFirst : List Entry → Type 0
IsNewestFirst [] = Unit
IsNewestFirst (r ∷ rs) = All (λ x. x.timestamp ≤ r.timestamp) rs × IsNewestFirst rs

gt_of_leb : (a b : ℕ) → leb a b ≡ false → suc b ≤ a
gt_of_leb a b h = ground arith

drop-none : (n : ℕ) (xs : List Entry) → n ≡ 0 → drop n xs ≡ xs
drop-none zero xs h = refl
drop-none (suc n) xs h = absurd (omega (arith, h))

drop-one : (n k : ℕ) (y : Entry) (xs : List Entry) → k ≡ suc n → drop n xs ≡ drop k (y ∷ xs)
drop-one n k y xs h = rw h refl

last_of-cons :
    (maxlen : ℕ) (y : Entry) (xs : List Entry)
    → maxlen ≤ length xs
    → last_of maxlen xs ≡ last_of maxlen (y ∷ xs)
last_of-cons maxlen y xs h = drop-one (length xs - maxlen) _ y xs (omega (arith, h))

record_decision_step :
    (maxlen : ℕ) (ys : List Entry) (r : Entry) (rs : List Entry)
    → length ys ≤ maxlen
    → let after = record_decision maxlen ys r in
      (last_of maxlen (after ++ rs) ≡ last_of maxlen (ys ++ r ∷ rs)) × (length after ≤ maxlen)
unfolding record_decision append_bounded
record_decision_step maxlen [] r rs h = elim (Bool-cases (ltb 0 maxlen)) [
  | inl room ↦ rw room (refl, ltb→lt 0 maxlen room)
  | inr full ↦ rw full (last_of-cons maxlen r rs (ground (arith, full)), h)
]
record_decision_step maxlen (y ∷ ys) r rs h =
    let one = length-append ys (r ∷ []) in
    let more = length-append ys (r ∷ rs) in
    elim (Bool-cases (leb maxlen (suc (length ys)))) [
      | inl full ↦
          let k = leb→le maxlen (suc (length ys)) full in
          rw full (
            ap (last_of maxlen) (append_assoc ys (r ∷ []) rs)
                ∙ last_of-cons maxlen y (ys ++ r ∷ rs) (omega (arith, k, more)),
            omega (arith, h, one),
          )
      | inr room ↦
          let k = gt_of_leb maxlen (suc (length ys)) room in
          rw room (ap (last_of maxlen) (append_assoc (y ∷ ys) (r ∷ []) rs), omega (arith, k, one))
    ]

run-last :
    (maxlen : ℕ) (ys rs : List Entry)
    → length ys ≤ maxlen
    → foldl (record_decision maxlen) ys rs ≡ last_of maxlen (ys ++ rs)
run-last maxlen ys [] h =
    rw (append-nil ys) (sym (drop-none (length ys - maxlen) ys (omega (arith, h))))
run-last maxlen ys (r ∷ rs) h =
    let (same, fits) = record_decision_step maxlen ys r rs h in
    run-last maxlen (record_decision maxlen ys r) rs fits ∙ same

at-insert_newest : (t : ℕ) (r : Entry) (xs : List Entry) → at t (insert_newest r xs) ≡ at t (r ∷ xs)
unfolding select insert_newest
at-insert_newest t r [] = refl
at-insert_newest t r (x ∷ xs) = ground (arith, at-insert_newest t r xs)

at-sort_newest : (t : ℕ) (rs : List Entry) → at t (sort_newest rs) ≡ at t rs
unfolding select sort_newest
at-sort_newest t [] = refl
at-sort_newest t (r ∷ rs) =
    at-insert_newest t r (sort_newest rs)
    ∙ ap (λ xs. if r.timestamp == t then r ∷ xs else xs) (at-sort_newest t rs)

insert_newest-All :
    (b : ℕ) (r : Entry) (xs : List Entry)
    → r.timestamp ≤ b
    → All (λ x. x.timestamp ≤ b) xs
    → All (λ x. x.timestamp ≤ b) (insert_newest r xs)
unfolding insert_newest
insert_newest-All b r [] h k = (h, tt)
insert_newest-All b r (x ∷ xs) h k = elim (Bool-cases (leb x.timestamp r.timestamp)) [
  | inl e ↦ rw e (h, k)
  | inr e ↦ rw e (k.0, insert_newest-All b r xs h k.1)
]

insert_newest-IsNewestFirst :
    (r : Entry) (xs : List Entry) → IsNewestFirst xs → IsNewestFirst (insert_newest r xs)
unfolding insert_newest
insert_newest-IsNewestFirst r [] h = (tt, tt)
insert_newest-IsNewestFirst r (x ∷ xs) h = elim (Bool-cases (leb x.timestamp r.timestamp)) [
  | inl e ↦ rw e ((ground arith, All-mono xs (λ y k. ground arith) h.0), h)
  | inr e ↦
      rw e (
        insert_newest-All x.timestamp r xs (ground arith) h.0,
        insert_newest-IsNewestFirst r xs h.1,
      )
]

sort_newest-IsNewestFirst : (rs : List Entry) → IsNewestFirst (sort_newest rs)
unfolding sort_newest
sort_newest-IsNewestFirst [] = tt
sort_newest-IsNewestFirst (r ∷ rs) =
    insert_newest-IsNewestFirst r (sort_newest rs) (sort_newest-IsNewestFirst rs)

select_comm :
    (p q : Entry → Bool) (rs : List Entry) → select p (select q rs) ≡ select q (select p rs)
unfolding select
select_comm p q [] = refl
select_comm p q (r ∷ rs) = ground (arith, select_comm p q rs)

at-since :
    (t since : ℕ) (rs : List Entry)
    → at t (select (λ r. leb since r.timestamp) rs) ≡ (if leb since t then at t rs else [])
unfolding select
at-since t since [] = ground arith
at-since t since (r ∷ rs) = ground (arith, at-since t since rs)

of_strategy_comm :
    (p : Entry → Bool) (sid : Option Str) (rs : List Entry)
    → of_strategy sid (select p rs) ≡ select p (of_strategy sid rs)
unfolding of_strategy
of_strategy_comm p none rs = refl
of_strategy_comm p (some []) rs = refl
of_strategy_comm p (some (c ∷ s)) rs = select_comm (is_of (c ∷ s)) p rs

-- After any records, the listing goes from the newest to the oldest; of each time from `since` on,
-- it has exactly the records of that time and of the strategy that is asked for, if one is, among
-- the last records that fit, in the order in which they were recorded; and none of an earlier time.
pub recent-run :
    (maxlen : ℕ) (rs : List Entry) (since : ℕ) (sid : Option Str)
    → let shown = recent (foldl (record_decision maxlen) [] rs) since sid in
      IsNewestFirst shown
      × ((t : ℕ)
          → at t shown ≡ (if leb since t then at t (of_strategy sid (last_of maxlen rs)) else []))
unfolding recent
recent-run maxlen rs since sid =
    let kept = of_strategy sid (select (λ r. leb since r.timestamp) (last_of maxlen rs)) in
    rw (run-last maxlen [] rs (omega arith)) (
      sort_newest-IsNewestFirst kept,
      λ t.
          at-sort_newest t kept
          ∙ ap (at t) (of_strategy_comm _ sid (last_of maxlen rs))
          ∙ at-since t since (of_strategy sid (last_of maxlen rs)),
    )
