-- ===== src/Alerts/Match.antt =====
-- Which alerts a silence and a route match, stated without the order of the tests.
use sketchlog.Prelude.{
  String, ◌≡◌, ◌↔◌, ◌⊎◌, refl, true, false, Option, none, some, [], ◌∷◌, arith, All,
}
use sketchlog.Prelude.Key.{string_key}
use sketchlog.Prelude.Dict.{Dict, get}
use sketchlog.Prelude.Float.{Float}
use sketchlog.Alerts.{
  Alert, Silence, Route, differs, lacks, labels_match, route_matches, is_active, silence_matches,
}

-- A criterion of a matcher is empty or demands this very value.
abbrev pub Fits : String → String → Type 0
Fits wanted value = (wanted ≡ "") ⊎ (wanted ≡ value)

-- Every wanted label is there, with the wanted value.
abbrev pub HasLabels : Dict String String → Dict String String → Type 0
HasLabels wanted labels = All (λ x. get x.0 labels ≡ some x.1) wanted

differs_iff : (wanted value : String) → (differs wanted value ≡ false) ↔ Fits wanted value
differs_iff wanted value =
    ground (arith, string_key.beq_iff wanted "", string_key.beq_iff wanted value)

lacks_iff : (o : Option String) (v : String) → (lacks o v ≡ false) ↔ (o ≡ some v)
lacks_iff none v = (λ h. cc, λ h. cc)
lacks_iff (some w) v = ground (arith, string_key.beq_iff w v)

labels_match_iff :
    (wanted labels : Dict String String)
    → (labels_match wanted labels ≡ true) ↔ HasLabels wanted labels
unfolding labels_match
labels_match_iff [] labels = (λ h. tt, λ h. refl)
labels_match_iff ((k, v) ∷ wanted) labels =
    let (to, from) = lacks_iff (get k labels) v in
    let (all, each) = labels_match_iff wanted labels in
    ((λ h. (to (ground arith), all (ground arith))), λ h. rw (from h.0, each h.1) refl)

module _ {F : Type 0} where
  abbrev pub RouteFits : Route → Alert F → Type 0
  RouteFits r a =
      Fits r.match_namespace a.namespace
      × Fits r.match_stream a.stream
      × Fits r.match_severity a.severity
      × Fits r.match_tenant a.tenant
      × HasLabels r.match_labels a.labels

  -- A route matches the alerts that meet all of its criteria.
  pub route_matches_lem : (r : Route) (a : Alert F) → (route_matches r a ≡ true) ↔ RouteFits r a
  unfolding route_matches
  route_matches_lem r a =
      let (to₁, from₁) = differs_iff r.match_namespace a.namespace in
      let (to₂, from₂) = differs_iff r.match_stream a.stream in
      let (to₃, from₃) = differs_iff r.match_severity a.severity in
      let (to₄, from₄) = differs_iff r.match_tenant a.tenant in
      let (to₅, from₅) = labels_match_iff r.match_labels a.labels in
      (
        (λ h. (
          to₁ (ground arith),
          to₂ (ground arith),
          to₃ (ground arith),
          to₄ (ground arith),
          to₅ (ground arith),
        )),
        λ h. rw (from₁ h.0, from₂ h.1, from₃ h.2, from₄ h.3, from₅ h.4) refl,
      )

module _ (f : Float) where
  open f use {F, le, lt}

  abbrev pub SilenceFits : Silence F → Alert F → F → Type 0
  SilenceFits s a t =
      (le s.starts_at t ≡ true)
      × (lt t s.ends_at ≡ true)
      × Fits s.match_namespace a.namespace
      × Fits s.match_stream a.stream
      × Fits s.match_severity a.severity
      × Fits s.match_tenant a.tenant
      × HasLabels s.match_labels a.labels

  -- A silence matches, from its start up to but not including its end, the alerts that meet all of
  -- its criteria.
  pub silence_matches_lem :
      (s : Silence F) (a : Alert F) (t : F) → (silence_matches f s a t ≡ true) ↔ SilenceFits s a t
  unfolding silence_matches is_active
  silence_matches_lem s a t =
      let (to₁, from₁) = differs_iff s.match_namespace a.namespace in
      let (to₂, from₂) = differs_iff s.match_stream a.stream in
      let (to₃, from₃) = differs_iff s.match_severity a.severity in
      let (to₄, from₄) = differs_iff s.match_tenant a.tenant in
      let (to₅, from₅) = labels_match_iff s.match_labels a.labels in
      (
        (λ h. (
          ground arith,
          ground arith,
          to₁ (ground arith),
          to₂ (ground arith),
          to₃ (ground arith),
          to₄ (ground arith),
          to₅ (ground arith),
        )),
        λ h. rw (h.0, h.1, from₁ h.2, from₂ h.3, from₃ h.4, from₄ h.5, from₅ h.6) refl,
      )
