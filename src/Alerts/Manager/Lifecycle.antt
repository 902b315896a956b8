-- ===== src/Alerts/Manager/Lifecycle.antt =====
-- The life of an alert: what `ingest` and `resolve` do on each of their branches.
use mathlib.Core.Path.{subst}
use sketchlog.Prelude.{
  ℕ, String, ◌≡◌, refl, ◌∙◌, inl, inr, Bool, true, false, not, Option, none, some, List, [], ◌∷◌,
  ◌++◌, map, Bool-cases, arith, All,
}
use sketchlog.Prelude.Key.{string_key, ◌==◌, member}
use sketchlog.Prelude.Dict.{Dict, get, IsDict, get-pop_self}
use sketchlog.Prelude.Exec.{ok, no_error}
use sketchlog.Prelude.Float.{Float}
use sketchlog.Alerts.{
  Alert, Route, ChannelConfig, empty_name, empty_namespace, bad_severity, bad_status, bad_fired_at,
  severities, statuses, is_finite, bad_resolution, alert_errors, make_alert, resolve_alert,
  silence_alert, route_matches,
}
use sketchlog.Alerts.Router.{Router, scan_routes, resolve_channels, extend}
use sketchlog.Alerts.Delivery.{DeliveryRecord}
use sketchlog.Alerts.Delivery.Records.{IsFinal, deliver_lem}
use sketchlog.Alerts.Store.{AlertStore, is_closed, upsert, save, get_active}
use sketchlog.Alerts.Store.Restart.{IsAlert, IsActive, IsStore}
use sketchlog.Alerts.Manager.{Manager, is_silenced, notify, ingest, resolve, tick}

module _ (f : Float) (blank : String → Bool) where
  open f use {F}

  IsAlert-status :
      (a : Alert F) (status : String) (at_time : Option F)
      → member status statuses ≡ true
      → bad_resolution f at_time ≡ false
      → IsAlert f blank a
      → IsAlert f blank (record a { status = status; resolved_at = at_time })
  unfolding alert_errors
  IsAlert-status a status at_time known finite h =
      let (named, h₁) = no_error (blank a.name) empty_name _ h in
      let (spaced, h₂) = no_error (blank a.namespace) empty_namespace _ h₁ in
      let (severe, h₃) = no_error (not (member a.severity severities)) bad_severity _ h₂ in
      let (_, h₄) = no_error (not (member a.status statuses)) bad_status _ h₃ in
      let (fired, _) = no_error (not (is_finite f a.fired_at)) bad_fired_at _ h₄ in
      rw (named, spaced, severe, known, fired, finite) refl

  bad_resolution-IsAlert :
      (a : Alert F) → IsAlert f blank a → bad_resolution f a.resolved_at ≡ false
  unfolding alert_errors
  bad_resolution-IsAlert a h =
      let (_, h₁) = no_error (blank a.name) empty_name _ h in
      let (_, h₂) = no_error (blank a.namespace) empty_namespace _ h₁ in
      let (_, h₃) = no_error (not (member a.severity severities)) bad_severity _ h₂ in
      let (_, h₄) = no_error (not (member a.status statuses)) bad_status _ h₃ in
      let (_, h₅) = no_error (not (is_finite f a.fired_at)) bad_fired_at _ h₄ in ground (arith, h₅)

  -- Replacing the status of a valid alert cannot raise.
  silence_alert-ok :
      (a : Alert F)
      → IsAlert f blank a
      → silence_alert f blank a ≡ ok (record a { status = "silenced" })
  unfolding silence_alert make_alert
  silence_alert-ok a h =
      rw
        (IsAlert-status a "silenced" a.resolved_at (unfold member in refl)
          (bad_resolution-IsAlert a h) h)
        refl

  resolve_alert-ok :
      (a : Alert F) (now : F)
      → is_finite f now ≡ true
      → IsAlert f blank a
      → resolve_alert f blank now a ≡ ok (record a { status = "resolved"; resolved_at = some now })
  unfolding resolve_alert make_alert
  resolve_alert-ok a now k h =
      rw (IsAlert-status a "resolved" (some now) (unfold member in refl) (rw k refl) h) refl

-- Routes look at neither the status of an alert nor at when it was resolved.
module _ {F : Type 0} where
  route_matches-status :
      (r : Route) (a : Alert F) (status : String) (at_time : Option F)
      → route_matches r (record a { status = status; resolved_at = at_time }) ≡ route_matches r a
  unfolding route_matches
  route_matches-status r a status at_time = refl

  scan_routes-status :
      (a : Alert F) (status : String) (at_time : Option F) (routes : List Route)
      (matched defaults : List String)
      → scan_routes (record a { status = status; resolved_at = at_time }) routes matched defaults
        ≡ scan_routes a routes matched defaults
  unfolding scan_routes route_matches
  scan_routes-status a status at_time [] matched defaults = refl
  scan_routes-status a status at_time (r ∷ routes) matched defaults =
      rw
        (
          scan_routes-status a status at_time routes matched defaults,
          scan_routes-status a status at_time routes (extend r.channels matched) defaults,
        )
        refl

  resolve_channels-status :
      (s : Router) (a : Alert F) (status : String) (at_time : Option F)
      → resolve_channels s (record a { status = status; resolved_at = at_time })
        ≡ resolve_channels s a
  unfolding resolve_channels
  resolve_channels-status s a status at_time =
      scan_routes-status a status at_time s.routes [] s.default_channels

  -- A closed alert leaves the active ones and ends the history.
  upsert-closed :
      (a : Alert F) (s : AlertStore F)
      → is_closed a ≡ true
      → IsDict s.active
      → (get_active a.alert_id (upsert a s) ≡ none) × ((upsert a s).history ≡ s.history ++ (a ∷ []))
  unfolding upsert save
  upsert-closed a s h distinct =
      rw h (ground (arith, get-pop_self a.alert_id s.active distinct), ground arith)

module _ {F : Type 0} where
  -- The alert that `ingest` stores under a silence.
  abbrev pub silenced : Alert F → Alert F
  silenced a = record a { status = "silenced" }

  -- The alert that `resolve` stores.
  abbrev pub resolved : (ℕ → F) → Alert F → Manager F → Alert F
  resolved clock a m = record a { status = "resolved"; resolved_at = some (clock m.delivery.ticks) }

module _ (f : Float) (blank : String → Bool) (repr : String → String) (clock : ℕ → f.F)
    (post : ℕ → Alert f.F → ChannelConfig → Option String) where
  open f use {F}

  -- What a valid alert meets at a manager with a valid store. Under a matching silence nobody is
  -- told: no record, no post, and the alert goes, as silenced, to the end of the history and is not
  -- active. Without one it is stored as it is, and its channels get one final record each.
  pub ingest_lem :
      (a : Alert F) (m : Manager F)
      → IsAlert f blank a
      → IsStore f blank m.store
      → let (r, m') = ingest f blank repr clock post a m in
        (is_silenced f m.silences a (clock m.delivery.ticks) ≡ true
          → (r ≡ ok [])
            × (m'.delivery.posts ≡ m.delivery.posts)
            × (m'.delivery.records ≡ m.delivery.records)
            × (get_active a.alert_id m'.store ≡ none)
            × (m'.store.history ≡ m.store.history ++ (silenced a ∷ [])))
        × (is_silenced f m.silences a (clock m.delivery.ticks) ≡ false
            → (rs : List (DeliveryRecord F)) × (r ≡ ok rs)
              × (map (λ x. x.channel) rs ≡ resolve_channels m.router a)
              × All IsFinal rs
              × (m'.store ≡ upsert a m.store))
  unfolding ingest notify
  ingest_lem a m h stored = (
    (λ yes.
        rw (yes, silence_alert-ok f blank a h)
          (let (gone, past) = upsert-closed (silenced a) m.store (ground arith) stored.0 in
            (refl, refl, refl, gone, past))),
    λ no. rw no (
        let (routed, final, _, _) =
          deliver_lem clock post repr a (resolve_channels m.router a) (tick m).delivery in
        (_, refl, routed, final, refl)),
  )

  IsActive-get :
      (id : String) (d : Dict String (Alert F)) (a : Alert F)
      → All (IsActive f blank) d
      → get id d ≡ some a
      → IsActive f blank (id, a)
  unfolding get
  IsActive-get id [] a h found = cc
  IsActive-get id ((j, b) ∷ d) a h found = elim (Bool-cases (j == id)) [
    | inl same ↦
        let eq : j ≡ id = (string_key.beq_iff j id).0 same in
        let is : b ≡ a = ground arith in
        subst (λ x. IsActive f blank (id, x)) is (subst (λ i. IsActive f blank (i, b)) eq h.0)
    | inr other ↦ IsActive-get id d a h.1 (rw other at found)
  ]

  -- Resolving an active alert of a valid store never raises, if the clock reads finite times. It is
  -- stored, as resolved now, at the end of the history, the channels that it would have as a firing
  -- alert get one final record each, and it is no longer active: resolving it again returns `None`
  -- and does nothing.
  pub resolve_lem :
      (id : String) (a : Alert F) (m : Manager F)
      → ((n : ℕ) → is_finite f (clock n) ≡ true)
      → IsStore f blank m.store
      → get_active id m.store ≡ some a
      → let (r, m') = resolve f blank repr clock post id m in
        (rs : List (DeliveryRecord F)) × (r ≡ ok (some rs))
        × (map (λ x. x.channel) rs ≡ resolve_channels m.router a)
        × All IsFinal rs
        × (m'.store.history ≡ m.store.history ++ (resolved clock a m ∷ []))
        × (resolve f blank repr clock post id m' ≡ (ok none, m'))
  unfolding resolve notify
  resolve_lem id a m finite stored found =
      let now = clock m.delivery.ticks in
      let (valid, named, live) = IsActive-get id m.store.active a stored.1 found in
      let (gone, past) = upsert-closed (resolved clock a m) m.store refl stored.0 in
      let closed : get_active id (upsert (resolved clock a m) m.store) ≡ none =
        subst (λ i. get_active i (upsert (resolved clock a m) m.store) ≡ none) named gone in
      let same = resolve_channels-status m.router a "resolved" (some now) in
      let (routed, final, _, _) =
        deliver_lem clock post repr (resolved clock a m)
          (resolve_channels m.router (resolved clock a m)) (tick m).delivery in
      rw (found, resolve_alert-ok f blank a now (finite m.delivery.ticks) valid)
        (_, refl, routed ∙ same, final, past, rw closed refl)
