-- ===== src/Health/Window.antt =====
-- What the sliding window keeps.
use petrosa_cio.Prelude.{
  ℕ, ◌+◌, ◌≤◌, ◌≡◌, refl, Bool-cases, ltb, leb, if◌then◌else◌, List, [], ◌∷◌, All, inl, inr, arith,
}
use petrosa_cio.Health.{prune_queue}

module _ {ℓ} {A : Type ℓ} (at : A → ℕ) where
  -- In the order in which they were observed.
  abbrev pub Ascending : List A → Type ℓ
  Ascending [] = Unit
  Ascending (x ∷ q) = All (λ y. at x ≤ at y) q × Ascending q

  -- Those observed in the window that ends now.
  unfoldable pub in_window : ℕ → ℕ → List A → List A
  in_window window now [] = []
  in_window window now (x ∷ q) =
      let rest = in_window window now q in if leb now (at x + window) then x ∷ rest else rest

  in_window-All :
      (window now t : ℕ) (q : List A)
      → now ≤ t + window
      → All (λ y. t ≤ at y) q
      → in_window window now q ≡ q
  unfolding in_window
  in_window-All window now t [] h late = refl
  in_window-All window now t (x ∷ q) h late =
      ground (arith, late.0, in_window-All window now t q h late.1)

  -- From a queue in the order of observation, pruning keeps exactly the entries of the window, and
  -- in their order: one that is `window` old to the unit is still kept.
  pub prune_queue_lem :
      (window now : ℕ) (q : List A)
      → Ascending q
      → prune_queue at window now q ≡ in_window window now q
  unfolding prune_queue in_window
  prune_queue_lem window now [] h = refl
  prune_queue_lem window now (x ∷ q) h = elim (Bool-cases (ltb (at x + window) now)) [
    | inl old ↦ ground (arith, prune_queue_lem window now q h.1)
    | inr fresh ↦ ground (arith, in_window-All window now (at x) q (ground arith) h.0)
  ]
