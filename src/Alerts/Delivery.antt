-- ===== src/Alerts/Delivery.antt =====
-- `DeliveryEngine`: at most three attempts to post an alert to each channel, and their records.
-- The network, the clock and `time.sleep` are not code of the repository: `post n alert config` is
-- what the n-th call of `_deliver_to_channel` does (`none` if it returns, the text of the
-- exception if it raises), `clock n` is the n-th reading of `time.time`.
pub mod Attempts
pub mod Records
use Prim.Native.String.{◌++◌ as str_append}
use sketchlog.Prelude.{
  ℕ, zero, suc, ◌+◌, ◌-◌, ◌^◌, String, ◌≡◌, Bool, true, false, not, ◌&&◌, Option, none, some, List,
  [], ◌∷◌, ◌++◌, if◌then◌else◌, ltb,
}
use sketchlog.Prelude.Key.{string_key, ◌==◌}
use sketchlog.Prelude.Dict.{Dict, get, put, values}
use sketchlog.Prelude.Text.{clip}
use sketchlog.Alerts.{Alert, ChannelConfig}

-- `_MAX_RETRY`
abbrev pub max_retry : ℕ
max_retry = 3

pub data DeliveryStatus : Type 0 where
  pending sent failed skipped : DeliveryStatus

pub record DeliveryRecord (F : Type 0) : Type 0 where
  pub alert_id : String
  pub channel : String
  pub adapter : String
  pub status : DeliveryStatus
  pub attempts : ℕ
  pub last_attempt_at : Option F
  pub last_error : String
  pub sent_at : Option F

-- The engine, and what it has done outside: the posts and readings of the clock so far, and the
-- seconds of each sleep, the latest first.
pub record Engine (F : Type 0) : Type 0 where
  pub channels : Dict String ChannelConfig
  pub records : Dict String (DeliveryRecord F)
  pub posts : ℕ
  pub ticks : ℕ
  pub sleeps : List ℕ

-- f"{alert_id}:{channel}"
abbrev pub record_key : String → String → String
record_key alert_id channel = str_append alert_id (str_append ":" channel)

-- A new `DeliveryRecord`, its other fields at their defaults.
abbrev pub new_record :
    {F : Type 0} → String → String → String → DeliveryStatus → String → DeliveryRecord F
new_record alert_id channel adapter status last_error = record {
  alert_id = alert_id;
  channel = channel;
  adapter = adapter;
  status = status;
  attempts = 0;
  last_attempt_at = none;
  last_error = last_error;
  sent_at = none;
}

-- f"channel {ch!r} not configured", where `repr` is that of a `str`
abbrev pub not_configured : (String → String) → String → String
not_configured repr ch = str_append "channel " (str_append (repr ch) " not configured")

-- `DeliveryEngine.add_channel`
unfoldable pub add_channel : {F : Type 0} → ChannelConfig → Engine F → Engine F
add_channel c e = record e { channels = put c.name c e.channels }

-- `DeliveryEngine._store`
unfoldable pub store : {F : Type 0} → DeliveryRecord F → Engine F → Engine F
store r e = record e { records = put (record_key r.alert_id r.channel) r e.records }

-- `DeliveryEngine.get_record` and `DeliveryEngine.all_records`
abbrev pub get_record : {F : Type 0} → String → String → Engine F → Option (DeliveryRecord F)
get_record alert_id channel e = get (record_key alert_id channel) e.records

abbrev pub all_records : {F : Type 0} → Engine F → List (DeliveryRecord F)
all_records e = values e.records

module _ {F : Type 0} (clock : ℕ → F) (post : ℕ → Alert F → ChannelConfig → Option String) where
  -- The start of an attempt: its number and time are written, then the alert is posted.
  abbrev pub start_attempt : ℕ → DeliveryRecord F → Engine F → DeliveryRecord F
  start_attempt attempt r e = record r {
    attempts = attempt;
    last_attempt_at = some (clock e.ticks);
  }

  -- An attempt whose post returned; the clock is read a second time.
  unfoldable pub succeed : ℕ → DeliveryRecord F → Engine F → DeliveryRecord F × Engine F
  succeed attempt r e = (
    record (start_attempt attempt r e) {
      status = sent;
      sent_at = some (clock (e.ticks + 1));
      last_error = "";
    },
    record e { posts = e.posts + 1; ticks = e.ticks + 2 },
  )

  -- An attempt whose post raised: the pause before the next one, or the end.
  unfoldable pub fail : ℕ → String → DeliveryRecord F → Engine F → DeliveryRecord F × Engine F
  fail attempt text r e =
      let tried = record (start_attempt attempt r e) { last_error = clip 300 text } in
      let e' = record e { posts = e.posts + 1; ticks = e.ticks + 1 } in
      if ltb attempt max_retry
      then (tried, record e' { sleeps = 2 ^ (attempt - 1) ∷ e.sleeps })
      else (record tried { status = failed }, e')

  -- `for attempt in range(attempt, attempt + left)`, with its `break`.
  unfoldable pub attempt_loop :
      ℕ → ℕ → Alert F → ChannelConfig → DeliveryRecord F → Engine F → DeliveryRecord F × Engine F
  attempt_loop zero attempt a c r e = (r, e)
  attempt_loop (suc left) attempt a c r e = elim (post e.posts a c) [
    | none ↦ succeed attempt r e
    | some text ↦ let (r', e') = fail attempt text r e in attempt_loop left (attempt + 1) a c r' e'
  ]

  -- The last branch of the loop of `deliver`: the record is stored before the attempts, and, the
  -- same object, again after them.
  unfoldable pub attempt_delivery :
      Alert F → String → ChannelConfig → Engine F → DeliveryRecord F × Engine F
  attempt_delivery a ch c e =
      let r : DeliveryRecord F = new_record a.alert_id ch c.adapter pending "" in
      let (r', e') = attempt_loop max_retry 1 a c r (store r e) in (r', store r' e')

  -- The body of the loop of `deliver`, once the channel has been looked up.
  unfoldable pub deliver_to :
      (String → String)
      → Alert F
      → String
      → Option ChannelConfig
      → Engine F
      → DeliveryRecord F × Engine F
  deliver_to repr a ch none e =
      let r : DeliveryRecord F =
        new_record a.alert_id ch "unknown" failed (not_configured repr ch) in
      (r, store r e)
  deliver_to repr a ch (some c) e =
      let r : DeliveryRecord F = new_record a.alert_id ch c.adapter skipped "" in
      if a.status == "resolved" && not c.send_resolved
      then (r, store r e)
      else attempt_delivery a ch c e

  -- `DeliveryEngine.deliver`
  unfoldable pub deliver :
      (String → String) → Alert F → List String → Engine F → List (DeliveryRecord F) × Engine F
  deliver repr a [] e = ([], e)
  deliver repr a (ch ∷ chs) e =
      let (r, e') = deliver_to repr a ch (get ch e.channels) e in
      let (rs, e'') = deliver repr a chs e' in (r ∷ rs, e'')
