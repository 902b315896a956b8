-- ===== src/Alerts/Manager.antt =====
-- `SilenceManager` and `AlertManager`: the silence check, the store, the routes and the delivery.
pub mod Lifecycle
pub mod Reach
pub mod Silenced
use sketchlog.Prelude.{
  ℕ, suc, ◌+◌, String, ◌≡◌, Bool, true, false, not, ◌&&◌, ◌||◌, Option, none, some, List, [], ◌∷◌,
  ◌++◌, if◌then◌else◌,
}
use sketchlog.Prelude.Int.{ℤ}
use sketchlog.Prelude.Key.{string_key}
use sketchlog.Prelude.Dict.{Dict, get, put, pop, values, contains}
use sketchlog.Prelude.Exec.{Result, ok, err, bind}
use sketchlog.Prelude.Float.{Float}
use sketchlog.Alerts.{
  Alert, Silence, Route, ChannelConfig, AlertError, resolve_alert, silence_alert, is_active,
  silence_matches,
}
use sketchlog.Alerts.Router.{Router, resolve_channels}
use sketchlog.Alerts.Router
use sketchlog.Alerts.Delivery.{DeliveryRecord, Engine, deliver, all_records}
use sketchlog.Alerts.Delivery
use sketchlog.Alerts.Store.{
  AlertStore, Saved, upsert, get_active, list_active, list_history, open_store,
}

pub record Manager (F : Type 0) : Type 0 where
  pub store : AlertStore F
  pub silences : Dict String (Silence F)
  pub router : Router
  pub delivery : Engine F

-- {c.name: c for c in channels}
abbrev pub channel_map : List ChannelConfig → Dict String ChannelConfig → Dict String ChannelConfig
channel_map [] d = d
channel_map (c ∷ cs) d = channel_map cs (put c.name c d)

module _ {F : Type 0} where
  -- `SilenceManager.add` and `SilenceManager.remove`
  unfoldable pub add_silence : Silence F → Manager F → Manager F
  add_silence s m = record m { silences = put s.silence_id s m.silences }

  unfoldable pub remove_silence : String → Manager F → Bool × Manager F
  remove_silence id m = (contains id m.silences, record m { silences = pop id m.silences })

  abbrev pub add_channel : ChannelConfig → Manager F → Manager F
  add_channel c m = record m { delivery = Delivery.add_channel c m.delivery }

  abbrev pub add_route : Route → Manager F → Manager F
  add_route r m = record m { router = Router.add_route r m.router }

  -- `active_alerts`, `alert_history` and `delivery_status`
  abbrev pub active_alerts : Manager F → List (Alert F)
  active_alerts m = list_active m.store

  abbrev pub alert_history : String → String → String → ℤ → Manager F → List (Alert F)
  alert_history namespace stream severity limit m =
      list_history namespace stream severity limit m.store

  abbrev pub delivery_status : Manager F → List (DeliveryRecord F)
  delivery_status m = all_records m.delivery

  -- A reading of the clock.
  abbrev pub tick : Manager F → Manager F
  tick m = record m { delivery = record m.delivery { ticks = m.delivery.ticks + 1 } }

module _ (f : Float) where
  open f use {F}

  -- `any(s.matches(alert, t) for s in silences)`
  unfoldable pub any_silence : List (Silence F) → Alert F → F → Bool
  any_silence [] a t = false
  any_silence (s ∷ silences) a t = silence_matches f s a t || any_silence silences a t

  -- `SilenceManager.is_silenced` and `SilenceManager.list_active`
  unfoldable pub is_silenced : Dict String (Silence F) → Alert F → F → Bool
  is_silenced silences a t = any_silence (values silences) a t

  unfoldable pub active_only : List (Silence F) → F → List (Silence F)
  active_only [] t = []
  active_only (s ∷ silences) t =
      let rest = active_only silences t in if is_active f s t then s ∷ rest else rest

  abbrev pub active_silences : Manager F → F → List (Silence F)
  active_silences m t = active_only (values m.silences) t

module _ (f : Float) (blank : String → Bool) (repr : String → String) (clock : ℕ → f.F)
    (post : ℕ → Alert f.F → ChannelConfig → Option String) where
  open f use {F}

  -- `AlertManager.__init__`: without a path the store keeps no file.
  unfoldable pub init :
      List ChannelConfig
      → List Route
      → List String
      → (persistent : Bool) → Option (Saved F)
      → Manager F
  init channels routes default_channels persistent file = record {
    store =
        (if persistent
          then open_store f blank file
          else record { active = []; history = []; persistent = false; file = file });
    silences = [];
    router = record { routes = routes; default_channels = default_channels };
    delivery = record {
      channels = channel_map channels [];
      records = [];
      posts = 0;
      ticks = 0;
      sleeps = [];
    };
  }

  -- `self.delivery.deliver(alert, channels) if channels else []`: for no channels it does nothing.
  unfoldable pub notify : Alert F → Manager F → List (DeliveryRecord F) × Manager F
  notify a m =
      let (records, delivery) =
        deliver clock post repr a (resolve_channels m.router a) m.delivery in
      (records, record m { delivery = delivery })

  abbrev pub store_alert : Alert F → Manager F → Manager F
  store_alert a m = record m { store = upsert a m.store }

  -- A silenced alert is stored and no one is told.
  abbrev pub store_silenced :
      Result (List AlertError) (Alert F)
      → Manager F
      → Result (List AlertError) (List (DeliveryRecord F)) × Manager F
  store_silenced (ok a) m = (ok [], store_alert a m)
  store_silenced (err e) m = (err e, m)

  -- `AlertManager.ingest`
  unfoldable pub ingest :
      Alert F → Manager F → Result (List AlertError) (List (DeliveryRecord F)) × Manager F
  ingest a m =
      let silenced = is_silenced f m.silences a (clock m.delivery.ticks) in
      if silenced
      then store_silenced (silence_alert f blank a) (tick m)
      else (ok (notify a (store_alert a (tick m))).0, (notify a (store_alert a (tick m))).1)

  abbrev pub resolve_made :
      Result (List AlertError) (Alert F)
      → Manager F
      → Result (List AlertError) (Option (List (DeliveryRecord F))) × Manager F
  resolve_made (ok a) m = (ok (some (notify a (store_alert a m)).0), (notify a (store_alert a m)).1)
  resolve_made (err e) m = (err e, m)

  abbrev pub resolve_found :
      Option (Alert F)
      → Manager F
      → Result (List AlertError) (Option (List (DeliveryRecord F))) × Manager F
  resolve_found none m = (ok none, m)
  resolve_found (some a) m =
      resolve_made (resolve_alert f blank (clock m.delivery.ticks) a) (tick m)

  -- `AlertManager.resolve`
  unfoldable pub resolve :
      String → Manager F → Result (List AlertError) (Option (List (DeliveryRecord F))) × Manager F
  resolve id m = resolve_found (get_active id m.store) m
