-- ===== src/Tests/Alerts.antt =====
-- Runs of the theorems about alerts.
use sketchlog.Prelude.{
  arith, ℕ, ◌+◌, ◌*◌, ◌≤◌, String, ◌≡◌, ◌↔◌, refl, Bool, true, false, Option, none, some, List, [],
  ◌∷◌, map, All, zero, suc,
}
use sketchlog.Prelude.Int.{ℤ, pos}
use sketchlog.Prelude.Key.{string_key, member}
use sketchlog.Prelude.Dict.{values, get, contains}
use sketchlog.Prelude.Exec.{ok}
use sketchlog.Tests.Whole.{whole}
use sketchlog.Alerts.{
  Alert, Silence, Route, ChannelConfig, make_route, make_alert, alert_errors, route_matches,
  labels_match,
}
use sketchlog.Alerts.Match.{SilenceFits}
use sketchlog.Alerts.Router.{Router, resolve_channels, scan_routes, extend}
use sketchlog.Alerts.Router.Resolve.{IsDistinct, wanted, any_match, resolve_channels_lem}
use sketchlog.Alerts.Delivery.{Engine, DeliveryRecord, deliver, get_record}
use sketchlog.Alerts.Delivery.Records.{IsFinal, shown, deliver_lem}
use sketchlog.Alerts.Store.{upsert, open_store, get_active}
use sketchlog.Alerts.Store.Restart.{IsAlert, IsStore, open_store-upsert}
use sketchlog.Alerts.Manager.{Manager, init, ingest, resolve, is_silenced}
use sketchlog.Alerts.Manager.Silenced.{Any, is_silenced_lem}
use sketchlog.Alerts.Manager.Lifecycle.{silenced, resolved, ingest_lem, resolve_lem}
use sketchlog.Alerts.Manager.Reach.{start, after_ingest, IsManager, Reachable-IsManager}

abbrev disk_full : Alert ℤ
disk_full = record {
  name = "disk full";
  namespace = "prod";
  stream = "api";
  severity = "critical";
  status = "firing";
  labels = ("team", "storage") ∷ [];
  annotations = [];
  fired_at = pos 5;
  resolved_at = none;
  tenant = "";
  alert_id = "a1";
}

abbrev to_team : Route
to_team = record {
  channels = "pager" ∷ "pager" ∷ [];
  match_namespace = "prod";
  match_stream = "";
  match_severity = "critical";
  match_tenant = "";
  match_labels = ("team", "storage") ∷ [];
  continue_matching = true;
}

abbrev to_all : Route
to_all = record {
  channels = "chat" ∷ "pager" ∷ [];
  match_namespace = "";
  match_stream = "";
  match_severity = "";
  match_tenant = "";
  match_labels = [];
  continue_matching = false;
}

abbrev router : Router
router = record { routes = to_team ∷ to_all ∷ []; default_channels = "mail" ∷ [] }

resolve_channels_example :
    (any_match disk_full router.routes ≡ true
      → IsDistinct (resolve_channels router disk_full)
        × ((c : String)
            → member c (resolve_channels router disk_full)
              ≡ member c (wanted disk_full router.routes)))
    × (any_match disk_full router.routes ≡ false
        → resolve_channels router disk_full ≡ router.default_channels)
resolve_channels_example = resolve_channels_lem router disk_full (omega arith, (omega arith, tt))

routed : resolve_channels router disk_full ≡ "pager" ∷ "chat" ∷ []
unfolding resolve_channels scan_routes route_matches labels_match get extend member
routed = refl

abbrev pager : ChannelConfig
pager = record {
  name = "pager";
  adapter = "pagerduty";
  url = "https://events";
  token = "key";
  token_env = "";
  timeout_s = pos 10;
  send_resolved = true;
}

abbrev clock : ℕ → ℤ
clock n = pos n

-- The first two posts fail.
abbrev post : ℕ → Alert ℤ → ChannelConfig → Option String
post zero a c = some "HTTP 500"
post (suc zero) a c = some "HTTP 502"
post (suc (suc n)) a c = none

abbrev quoted : String → String
quoted s = s

abbrev idle : Engine ℤ
idle = record { channels = ("pager", pager) ∷ []; records = []; posts = 0; ticks = 0; sleeps = [] }

deliver_example :
    let (rs, e') = deliver clock post quoted disk_full ("pager" ∷ "chat" ∷ []) idle in
    (map (λ r. r.channel) rs ≡ "pager" ∷ "chat" ∷ [])
    × All IsFinal rs
    × (e'.posts ≤ 0 + 3 * 2)
    × ((j : String) → get_record "a1" j e' ≡ shown j rs (get_record "a1" j idle))
deliver_example = deliver_lem clock post quoted disk_full ("pager" ∷ "chat" ∷ []) idle

abbrev nothing_blank : String → Bool
nothing_blank s = false

disk_full-IsAlert : IsAlert whole nothing_blank disk_full
unfolding alert_errors member
disk_full-IsAlert = refl

abbrev night : Silence ℤ
night = record {
  starts_at = pos 0;
  ends_at = pos 8;
  match_namespace = "prod";
  match_stream = "";
  match_severity = "";
  match_tenant = "";
  match_labels = [];
  comment = "";
  created_by = "";
  silence_id = "s1";
}

abbrev manager : Manager ℤ
manager = record {
  store = record { active = ("a1", disk_full) ∷ []; history = []; persistent = true; file = none };
  silences = ("s1", night) ∷ [];
  router = router;
  delivery = idle;
}

manager-IsStore : IsStore whole nothing_blank manager.store
unfolding contains
manager-IsStore = ((refl, tt), ((disk_full-IsAlert, refl, refl), tt), tt)

is_silenced_example :
    (is_silenced whole manager.silences disk_full (pos 3) ≡ true)
    ↔ Any (λ s. SilenceFits whole s disk_full (pos 3)) (values manager.silences)
is_silenced_example = is_silenced_lem whole manager.silences disk_full (pos 3)

ingest_example :
    let (r, m') = ingest whole nothing_blank quoted clock post disk_full manager in
    (is_silenced whole manager.silences disk_full (clock 0) ≡ true
      → (r ≡ ok [])
        × (m'.delivery.posts ≡ 0)
        × (m'.delivery.records ≡ [])
        × (get_active "a1" m'.store ≡ none)
        × (m'.store.history ≡ silenced disk_full ∷ []))
    × (is_silenced whole manager.silences disk_full (clock 0) ≡ false
        → (rs : List (DeliveryRecord ℤ)) × (r ≡ ok rs)
          × (map (λ x. x.channel) rs ≡ resolve_channels router disk_full)
          × All IsFinal rs
          × (m'.store ≡ upsert disk_full manager.store))
ingest_example =
    ingest_lem whole nothing_blank quoted clock post disk_full manager disk_full-IsAlert
      manager-IsStore

resolve_example :
    let (r, m') = resolve whole nothing_blank quoted clock post "a1" manager in
    (rs : List (DeliveryRecord ℤ)) × (r ≡ ok (some rs))
    × (map (λ x. x.channel) rs ≡ resolve_channels router disk_full)
    × All IsFinal rs
    × (m'.store.history ≡ resolved clock disk_full manager ∷ [])
    × (resolve whole nothing_blank quoted clock post "a1" m' ≡ (ok none, m'))
resolve_example =
    resolve_lem whole nothing_blank quoted clock post "a1" disk_full manager (λ n. refl)
      manager-IsStore (unfold get in refl)

open_store-upsert_example :
    open_store whole nothing_blank (upsert disk_full manager.store).file
    ≡ upsert disk_full manager.store
open_store-upsert_example =
    open_store-upsert whole nothing_blank disk_full manager.store refl disk_full-IsAlert
      manager-IsStore

abbrev started : Manager ℤ
started = init whole nothing_blank quoted clock post (pager ∷ []) (to_team ∷ []) [] true none

to_team-made : make_route to_team ≡ ok to_team
unfolding make_route member
to_team-made = refl

disk_full-made : make_alert whole nothing_blank disk_full ≡ ok disk_full
unfolding make_alert alert_errors member
disk_full-made = refl

Reachable-IsManager_example :
    IsManager whole nothing_blank (ingest whole nothing_blank quoted clock post disk_full started).1
Reachable-IsManager_example =
    Reachable-IsManager whole nothing_blank quoted clock post
      (ingest whole nothing_blank quoted clock post disk_full started).1
      (after_ingest disk_full started disk_full-made
        (start (pager ∷ []) (to_team ∷ []) [] true (to_team-made, tt)))
