-- ===== src/Alerts/Delivery/Attempts.antt =====
-- How a delivery ends: what the attempts at one channel do, and the records of a whole delivery.
use sketchlog.Prelude.{
  ℕ, ◌+◌, ◌≤◌, String, ◌≡◌, ◌≢◌, refl, inl, inr, Option, none, some, List, [], ◌∷◌, ◌++◌, arith,
  Option-cases,
}
use sketchlog.Prelude.Key.{string_key}
use sketchlog.Alerts.{Alert, ChannelConfig}
use sketchlog.Alerts.Delivery.{
  DeliveryStatus, pending, sent, failed, DeliveryRecord, Engine, store, succeed, fail, attempt_loop,
  attempt_delivery,
}

-- The status, the number of attempts and the sleeps (the latest first) that three outcomes of a
-- post lead to.
abbrev pub outcome : Option String → Option String → Option String → DeliveryStatus × ℕ × List ℕ
outcome none _ _ = (sent, 1, [])
outcome (some x) none _ = (sent, 2, 1 ∷ [])
outcome (some x) (some y) none = (sent, 3, 2 ∷ 1 ∷ [])
outcome (some x) (some y) (some z) = (failed, 3, 2 ∷ 1 ∷ [])

-- A record that no later attempt will change.
abbrev pub IsFinal : {F : Type 0} → DeliveryRecord F → Type 0
IsFinal r = (r.status ≢ pending) × (r.attempts ≤ 3)

module _ {F : Type 0} (clock : ℕ → F) (post : ℕ → Alert F → ChannelConfig → Option String) where
  -- A post is tried again after one second and then after two; the first that returns ends the
  -- delivery as sent, and the third that raises as failed. The posts made are as many as the record
  -- says.
  pub attempt_delivery_lem :
      (a : Alert F) (ch : String) (c : ChannelConfig) (e : Engine F)
      → let (r, e') = attempt_delivery clock post a ch c e in
        let (status, attempts, sleeps) =
          outcome (post e.posts a c) (post (e.posts + 1) a c) (post (e.posts + 1 + 1) a c) in
        (r.status ≡ status)
        × (r.attempts ≡ attempts)
        × (e'.posts ≡ e.posts + attempts)
        × (e'.sleeps ≡ sleeps ++ e.sleeps)
  unfolding attempt_delivery attempt_loop succeed fail store
  attempt_delivery_lem a ch c e = elim (Option-cases (post e.posts a c)) [
    | inl first ↦ rw first (refl, refl, refl, refl)
    | inr (x, one) ↦ rw one (elim (Option-cases (post (e.posts + 1) a c)) [
      | inl second ↦ rw second (refl, refl, omega arith, refl)
      | inr (y, two) ↦ rw two (elim (Option-cases (post (e.posts + 1 + 1) a c)) [
        | inl third ↦ rw third (refl, refl, omega arith, refl)
        | inr (z, three) ↦ rw three (refl, refl, omega arith, refl)
      ])
    ])
  ]
