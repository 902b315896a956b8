-- ===== src/Alerts.antt =====
-- alert_manager.py: the validated data classes, and which alerts a silence or a route matches.
-- Arguments have their declared types; `blank` is `not s.strip()`, a method of `str`.
pub mod Match
pub mod Router
pub mod Delivery
pub mod Store
pub mod Manager
use sketchlog.Prelude.{
  ◌⊎◌, ℕ, String, ◌≡◌, Bool, true, false, not, ◌&&◌, ◌||◌, Option, none, some, List, [], ◌∷◌, ◌++◌,
  length, if◌then◌else◌, ◌==◌ as nat_eq,
}
use sketchlog.Prelude.Int.{ℤ, pos, ltb_ℤ}
use sketchlog.Prelude.Key.{string_key, ◌==◌, member}
use sketchlog.Prelude.Dict.{Dict, get}
use sketchlog.Prelude.Exec.{Result, append_if, raise_errors}
use sketchlog.Prelude.Float.{Float}

-- `_SEVERITIES`, `_STATUSES` and `_ADAPTERS`
abbrev pub severities : List String
severities = "critical" ∷ "warning" ∷ "info" ∷ []

abbrev pub statuses : List String
statuses = "firing" ∷ "resolved" ∷ "silenced" ∷ []

abbrev pub adapters : List String
adapters = "slack" ∷ "discord" ∷ "pagerduty" ∷ "opsgenie" ∷ "webhook" ∷ []

-- The messages that the four `__post_init__` collect.
pub data AlertError : Type 0 where
  empty_name empty_namespace bad_severity bad_status bad_fired_at bad_resolved_at : AlertError
  bad_start bad_end bad_interval no_channels bad_adapter bad_url bad_timeout : AlertError

pub record Alert (F : Type 0) : Type 0 where
  pub name : String
  pub namespace : String
  pub stream : String
  pub severity : String
  pub status : String
  pub labels : Dict String String
  pub annotations : Dict String String
  pub fired_at : F
  pub resolved_at : Option F
  pub tenant : String
  pub alert_id : String

pub record Silence (F : Type 0) : Type 0 where
  pub starts_at : F
  pub ends_at : F
  pub match_namespace : String
  pub match_stream : String
  pub match_severity : String
  pub match_tenant : String
  pub match_labels : Dict String String
  pub comment : String
  pub created_by : String
  pub silence_id : String

pub record Route : Type 0 where
  pub channels : List String
  pub match_namespace : String
  pub match_stream : String
  pub match_severity : String
  pub match_tenant : String
  pub match_labels : Dict String String
  pub continue_matching : Bool

pub record ChannelConfig : Type 0 where
  pub name : String
  pub adapter : String
  pub url : String
  pub token : String
  pub token_env : String
  pub timeout_s : ℤ
  pub send_resolved : Bool

-- `wanted and wanted not in _SEVERITIES`
abbrev pub unknown_severity : String → Bool
unknown_severity wanted = not (wanted == "") && not (member wanted severities)

-- `wanted and wanted != value`
abbrev pub differs : String → String → Bool
differs wanted value = not (wanted == "") && not (wanted == value)

-- `labels.get(k) != v`
abbrev pub lacks : Option String → String → Bool
lacks none v = true
lacks (some w) v = not (w == v)

-- The loop over `match_labels.items()`.
unfoldable pub labels_match : Dict String String → Dict String String → Bool
labels_match [] labels = true
labels_match ((k, v) ∷ wanted) labels =
    let rest = labels_match wanted labels in if lacks (get k labels) v then false else rest

-- `Route.__post_init__` and `Route.matches`
unfoldable pub make_route : Route → Result (List AlertError) Route
make_route r =
    raise_errors
      (append_if (nat_eq (length r.channels) 0) no_channels
        ++ append_if (unknown_severity r.match_severity) bad_severity)
      r

unfoldable pub route_matches : {F : Type 0} → Route → Alert F → Bool
route_matches r a =
    if differs r.match_namespace a.namespace
    then false
    else if differs r.match_stream a.stream
    then false
    else if differs r.match_severity a.severity
    then false
    else if differs r.match_tenant a.tenant
    then false
    else labels_match r.match_labels a.labels

-- `ChannelConfig.__post_init__`; `secure` is `url.startswith("https://")`.
unfoldable pub make_channel :
    (blank secure : String → Bool) → ChannelConfig → Result (List AlertError) ChannelConfig
make_channel blank secure c =
    raise_errors
      (append_if (blank c.name) empty_name
        ++ (append_if (not (member c.adapter adapters)) bad_adapter
            ++ (append_if (not (secure c.url)) bad_url
                ++ append_if (ltb_ℤ c.timeout_s (pos 1)) bad_timeout)))
      c

-- `ChannelConfig.resolved_token`; `environ` is `os.environ.get(name, "")`.
unfoldable pub resolved_token : (environ : String → String) → ChannelConfig → String
resolved_token environ c =
    if c.token_env == ""
    then c.token
    else if environ c.token_env == ""
    then c.token
    else environ c.token_env

module _ (f : Float) where
  open f use {F, lt, le, is_nan, is_inf}

  -- `math.isfinite`
  abbrev pub is_finite : F → Bool
  is_finite x = not (is_nan x || is_inf x)

  abbrev pub bad_resolution : Option F → Bool
  bad_resolution none = false
  bad_resolution (some t) = not (is_finite t)

  -- `Alert.__post_init__`
  unfoldable pub alert_errors : (blank : String → Bool) → Alert F → List AlertError
  alert_errors blank a =
      append_if (blank a.name) empty_name
      ++ (append_if (blank a.namespace) empty_namespace
          ++ (append_if (not (member a.severity severities)) bad_severity
              ++ (append_if (not (member a.status statuses)) bad_status
                  ++ (append_if (not (is_finite a.fired_at)) bad_fired_at
                      ++ append_if (bad_resolution a.resolved_at) bad_resolved_at))))

  unfoldable pub make_alert : (String → Bool) → Alert F → Result (List AlertError) (Alert F)
  make_alert blank a = raise_errors (alert_errors blank a) a

  -- `Alert.resolve` on a reading of the clock, and `Alert.silence`: `dataclasses.replace` runs the
  -- constructor again.
  unfoldable pub resolve_alert : (String → Bool) → F → Alert F → Result (List AlertError) (Alert F)
  resolve_alert blank now a =
      make_alert blank (record a { status = "resolved"; resolved_at = some now })

  unfoldable pub silence_alert : (String → Bool) → Alert F → Result (List AlertError) (Alert F)
  silence_alert blank a = make_alert blank (record a { status = "silenced" })

  -- `Silence.__post_init__`
  unfoldable pub make_silence : Silence F → Result (List AlertError) (Silence F)
  make_silence s =
      raise_errors
        (append_if (not (is_finite s.starts_at)) bad_start
          ++ (append_if (not (is_finite s.ends_at)) bad_end
              ++ (append_if
                    (is_finite s.starts_at && is_finite s.ends_at && le s.ends_at s.starts_at)
                    bad_interval
                  ++ append_if (unknown_severity s.match_severity) bad_severity)))
        s

  -- `Silence.is_active` and `Silence.matches`
  unfoldable pub is_active : Silence F → F → Bool
  is_active s t = le s.starts_at t && lt t s.ends_at

  unfoldable pub silence_matches : Silence F → Alert F → F → Bool
  silence_matches s a t =
      if not (is_active s t)
      then false
      else if differs s.match_namespace a.namespace
      then false
      else if differs s.match_stream a.stream
      then false
      else if differs s.match_severity a.severity
      then false
      else if differs s.match_tenant a.tenant
      then false
      else labels_match s.match_labels a.labels
