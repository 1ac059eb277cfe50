-- ===== src/Arbiter/Marks.antt =====
-- The mark that an allowed signal leaves in Redis, and what keeps it.
use petrosa_cio.Prelude.{
  ℕ, ◌+◌, ◌≤◌, ◌<◌, Str, str, ◌≡◌, ◌≢◌, refl, ap, ◌∙◌, false, Bool-cases, Option, none, some,
  Option-cases, inl, inr, List, [], ◌∷◌, ok, ◌||◌, arith,
}
use petrosa_cio.Evaluators.{EvaluatorSubscriber}
use petrosa_cio.Arbiter.{
  Redis, Floats, Signal, Outcome, paused, bypassed, deduplicated, conflict, allowed, is_allowed,
  normalise_action, paused_by, pause_guard_subsystems, dedup_key, bias_key, is_empty_text,
  cache_get, cache_set, parse_bias, publish, loses, resolve, arbitrate, guard, check,
}

-- What Redis documents of `SET key value EX ttl`: until the lifetime ends the value is read back,
-- and other keys are not touched; and here no `SET` fails.
pub record Laws {S X : Type 0} (R : Redis S X) : Type 0 where
  pub get_set :
      (s s' : S) (t u : ℕ) (k v : Str) (ttl : ℕ)
      → R.set s t k v ttl ≡ ok s'
      → t ≤ u
      → u < t + ttl
      → R.get s' u k ≡ ok (some v)
  pub get_other :
      (s s' : S) (t u : ℕ) (k j v : Str) (ttl : ℕ)
      → R.set s t k v ttl ≡ ok s'
      → k ≢ j
      → t ≤ u
      → R.get s' u j ≡ R.get s u j
  pub available : (s : S) (t : ℕ) (k v : Str) (ttl : ℕ) → (s' : S) × (R.set s t k v ttl ≡ ok s')

-- A check, with its surroundings.
pub record Call (C : Type 0) : Type 0 where
  pub subscriber : Option EvaluatorSubscriber
  pub policy : List (Str × Str)
  pub now : ℕ
  pub signal : Signal C

-- The ninth character, in which the two kinds of keys differ.
ninth : Str → ℕ
ninth (a ∷ b ∷ c ∷ d ∷ e ∷ f ∷ g ∷ h ∷ i ∷ s) = i
ninth _ = 0

bias_ne_dedup : (a b c : Str) → bias_key a ≢ dedup_key b c
unfolding ninth
bias_ne_dedup a b c h = let same : 98 ≡ 100 = ap ninth h in omega (arith, same)

conflict_ne_allowed : ¬ Path Outcome conflict allowed
conflict_ne_allowed h = cc

deduplicated_ne_allowed : ¬ Path Outcome deduplicated allowed
deduplicated_ne_allowed h = cc

bypassed_ne_allowed : ¬ Path Outcome bypassed allowed
bypassed_ne_allowed h = cc

paused_ne_allowed : (g : Str) → ¬ Path Outcome (paused g) allowed
paused_ne_allowed g h = cc

is_empty_text-false : (s : Str) → s ≢ [] → is_empty_text s ≡ false
is_empty_text-false [] h = absurd (h refl)
is_empty_text-false (x ∷ s) h = refl

module _ {S X C : Type 0} (R : Redis S X) (F : Floats C) (lower : Str → Str) (L : Laws R) where
  abbrev pub key_of : Signal C → Str
  key_of g = dedup_key g.symbol (normalise_action lower g.action)

  -- From a time until another, the key holds the mark of a published signal.
  abbrev pub Marked : S → Str → ℕ → ℕ → Type 0
  Marked s k from until = (u : ℕ) → from ≤ u → u < until → R.get s u k ≡ ok (some (str "1"))

  Marked-cache_set :
      (s : S) (t : ℕ) (j v : Str) (ttl : ℕ) (k : Str) (until : ℕ)
      → j ≢ k
      → Marked s k t until
      → Marked (cache_set R F lower s t j v ttl) k t until
  unfolding cache_set
  Marked-cache_set s t j v ttl k until other h u from before =
      let (s', stored) = L.available s t j v ttl in
      rw (stored, cache_set) (L.get_other s s' t u j k v ttl stored other from ∙ h u from before)

  Marks-cache_set :
      (s : S) (t : ℕ) (k : Str) → Marked (cache_set R F lower s t k (str "1") 60) k t (t + 60)
  unfolding cache_set
  Marks-cache_set s t k u from before =
      let (s', stored) = L.available s t k (str "1") 60 in
      rw (stored, cache_set) (L.get_set s s' t u k (str "1") 60 stored from before)

  Marks-publish :
      (s : S) (g : Signal C) (t : ℕ) → Marked (publish R F lower s t g).0 (key_of g) t (t + 60)
  unfolding publish
  Marks-publish s g t = Marks-cache_set _ t (key_of g)

  Marked-publish :
      (s : S) (g : Signal C) (t : ℕ) (a b : Str) (until : ℕ)
      → key_of g ≢ dedup_key a b
      → Marked s (dedup_key a b) t until
      → Marked (publish R F lower s t g).0 (dedup_key a b) t until
  unfolding publish
  Marked-publish s g t a b until other h =
      Marked-cache_set _ t (key_of g) (str "1") 60 (dedup_key a b) until other (
        Marked-cache_set s t (bias_key g.symbol) _ 300 (dedup_key a b) until
          (bias_ne_dedup g.symbol a b) h)

  -- What a part of the check may leave: it marks the key of a signal that it allows, and keeps the
  -- mark of another key.
  abbrev pub Sound : S → ℕ → Signal C → S × Outcome → Type 0
  Sound s t g left =
      (left.1 ≡ allowed → Marked left.0 (key_of g) t (t + 60))
      × ((a b : Str) (until : ℕ)
          → key_of g ≢ dedup_key a b
          → Marked s (dedup_key a b) t until
          → Marked left.0 (dedup_key a b) t until)

  publish-Sound : (s : S) (t : ℕ) (g : Signal C) → Sound s t g (publish R F lower s t g)
  publish-Sound s t g = (λ _. Marks-publish s g t, λ a b until. Marked-publish s g t a b until)

  resolve-Sound :
      (s : S) (t : ℕ) (g : Signal C) (bias : Option Str)
      → Sound s t g (resolve R F lower s t g bias)
  unfolding resolve
  resolve-Sound s t g none = publish-Sound s t g
  resolve-Sound s t g (some raw) = elim (Option-cases (parse_bias R F lower raw)) [
    | inl malformed ↦
        rw (malformed, resolve)
          (
            λ _. Marks-publish _ g t,
            λ a b until other h. Marked-publish _ g t a b until other (
                Marked-cache_set s t (bias_key g.symbol) [] 1 (dedup_key a b) until
                  (bias_ne_dedup g.symbol a b) h),
          )
    | inr (stored, parsed) ↦
        rw (parsed, resolve)
          (elim (Bool-cases (loses R F lower g stored)) [
            | inl lost ↦ rw lost (λ e. absurd (conflict_ne_allowed e), λ a b until other h. h)
            | inr won ↦ rw won (publish-Sound s t g)
          ])
  ]

  arbitrate-Sound : (s : S) (t : ℕ) (g : Signal C) → Sound s t g (arbitrate R F lower s t g)
  unfolding arbitrate
  arbitrate-Sound s t g = elim (Option-cases (cache_get R F lower s t (key_of g))) [
    | inl absent ↦
        rw (absent, arbitrate) (resolve-Sound s t g (cache_get R F lower s t (bias_key g.symbol)))
    | inr (v, found) ↦
        rw (found, arbitrate) (λ e. absurd (deduplicated_ne_allowed e), λ a b until other h. h)
  ]

  guard-Sound : (s : S) (t : ℕ) (g : Signal C) → Sound s t g (guard R F lower s t g)
  unfolding guard
  guard-Sound s t g = elim (Bool-cases (is_empty_text g.symbol || is_empty_text g.action)) [
    | inl missing ↦ rw missing (λ e. absurd (bypassed_ne_allowed e), λ a b until other h. h)
    | inr given ↦ rw given (arbitrate-Sound s t g)
  ]

  abbrev pub performed : S → Call C → S × Outcome
  performed s c = check R F lower c.subscriber c.policy s c.now c.signal

  pub check-Sound : (s : S) (c : Call C) → Sound s c.now c.signal (performed s c)
  unfolding check
  check-Sound s c = go c.subscriber
    where
      go :
          (sub : Option EvaluatorSubscriber)
          → Sound s c.now c.signal (check R F lower sub c.policy s c.now c.signal)
      go none = guard-Sound s c.now c.signal
      go (some sub) = elim (Option-cases (paused_by sub c.policy pause_guard_subsystems)) [
        | inl free ↦ rw (free, check) (guard-Sound s c.now c.signal)
        | inr (by, held) ↦
            rw (held, check) (λ e. absurd (paused_ne_allowed by e), λ a b until other h. h)
      ]

  arbitrate-Marked :
      (s : S) (t until : ℕ) (g : Signal C)
      → Marked s (key_of g) t until
      → t < until
      → arbitrate R F lower s t g ≡ (s, deduplicated)
  unfolding arbitrate cache_get
  arbitrate-Marked s t until g h before =
      let held : R.get s t (key_of g) ≡ ok (some (str "1")) = h t (omega arith) before in
      let found : cache_get R F lower s t (key_of g) ≡ some (str "1") = rw (held, cache_get) refl in
      rw (found, arbitrate) refl

  guard-Marked :
      (s : S) (t until : ℕ) (g : Signal C)
      → g.symbol ≢ []
      → g.action ≢ []
      → Marked s (key_of g) t until
      → t < until
      → guard R F lower s t g ≡ (s, deduplicated)
  unfolding guard
  guard-Marked s t until g symbol action h before =
      rw (is_empty_text-false g.symbol symbol, is_empty_text-false g.action action)
        (arbitrate-Marked s t until g h before)

  -- While its key is marked, a signal does not pass.
  pub check-Marked :
      (s : S) (c : Call C) (until : ℕ)
      → c.signal.symbol ≢ []
      → c.signal.action ≢ []
      → Marked s (key_of c.signal) c.now until
      → c.now < until
      → is_allowed (performed s c).1 ≡ false
  unfolding check is_allowed
  check-Marked s c until symbol action h before = go c.subscriber
    where
      same : guard R F lower s c.now c.signal ≡ (s, deduplicated)
      same = guard-Marked s c.now until c.signal symbol action h before

      go :
          (sub : Option EvaluatorSubscriber)
          → is_allowed (check R F lower sub c.policy s c.now c.signal).1 ≡ false
      go none = ap (λ left. is_allowed left.1) same
      go (some sub) = elim (Option-cases (paused_by sub c.policy pause_guard_subsystems)) [
        | inl free ↦ rw (free, check) (ap (λ left. is_allowed left.1) same)
        | inr (by, held) ↦ rw (held, check) refl
      ]

  guard-kept :
      (s : S) (t until : ℕ) (g : Signal C)
      → Marked s (key_of g) t until
      → t < until
      → (guard R F lower s t g).0 ≡ s
  unfolding guard
  guard-kept s t until g h before =
      elim (Bool-cases (is_empty_text g.symbol || is_empty_text g.action)) [
        | inl missing ↦ rw missing refl
        | inr given ↦ rw given (ap (λ left. left.0) (arbitrate-Marked s t until g h before))
      ]

  pub check-kept :
      (s : S) (c : Call C) (until : ℕ)
      → Marked s (key_of c.signal) c.now until
      → c.now < until
      → (performed s c).0 ≡ s
  unfolding check
  check-kept s c until h before = go c.subscriber
    where
      go :
          (sub : Option EvaluatorSubscriber) → (check R F lower sub c.policy s c.now c.signal).0 ≡ s
      go none = guard-kept s c.now until c.signal h before
      go (some sub) = elim (Option-cases (paused_by sub c.policy pause_guard_subsystems)) [
        | inl free ↦ rw (free, check) (guard-kept s c.now until c.signal h before)
        | inr (by, held) ↦ rw (held, check) refl
      ]
