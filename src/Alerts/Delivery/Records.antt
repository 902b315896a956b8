-- ===== src/Alerts/Delivery/Records.antt =====
-- The records of a whole delivery, and what the engine keeps of them.
use mathlib.Core.Path.{subst}
use text.Mathlib.TextLemmas.{append_cancel_left}
use Prim.Native.String.{◌++◌ as str_append}
use sketchlog.Prelude.{
  ℕ, ◌+◌, ◌*◌, ◌≤◌, String, ◌≡◌, ◌≢◌, refl, inl, inr, not, ◌&&◌, Option, none, some, List, [], ◌∷◌,
  map, ap, ◌∙◌, if◌then◌else◌, arith, Bool-cases, Option-cases, length, All,
}
use sketchlog.Prelude.Key.{string_key, ◌==◌}
use sketchlog.Prelude.Dict.{get, get-put}
use sketchlog.Alerts.{Alert, ChannelConfig}
use sketchlog.Alerts.Delivery.{
  pending, failed, skipped, DeliveryRecord, Engine, record_key, get_record, new_record,
  not_configured, store, succeed, fail, attempt_loop, attempt_delivery, deliver_to, deliver,
}

-- A record that no later attempt will change.
abbrev pub IsFinal : {F : Type 0} → DeliveryRecord F → Type 0
IsFinal r = (r.status ≢ pending) × (r.attempts ≤ 3)

-- Of one alert, the records of two channels have two keys.
record_key_iff : (id c d : String) → (record_key id c == record_key id d) ≡ (c == d)
record_key_iff id c d = elim (Bool-cases (c == d)) [
  | inl same ↦
      let eq : c ≡ d = (string_key.beq_iff c d).0 same in
      rw same ((string_key.beq_iff (record_key id c) (record_key id d)).1 (rw eq refl))
  | inr other ↦ elim (Bool-cases (record_key id c == record_key id d)) [
    | inl eq ↦
        let h =
          append_cancel_left id (str_append ":" c) (str_append ":" d)
            ((string_key.beq_iff (record_key id c) (record_key id d)).0 eq) in
        let g = (string_key.beq_iff c d).1 (append_cancel_left ":" c d h) in absurd (ground arith)
    | inr ne ↦ rw (ne, other) refl
  ]
]

module _ {F : Type 0} where
  -- What an engine shows of an alert after some of its channels have been served: the records
  -- returned for them, the last one of each channel, and what it showed before of the others.
  unfoldable pub shown :
      String → List (DeliveryRecord F) → Option (DeliveryRecord F) → Option (DeliveryRecord F)
  shown j [] before = before
  shown j (r ∷ rs) before = shown j rs (if r.channel == j then some r else before)

module _ {F : Type 0} (clock : ℕ → F) (post : ℕ → Alert F → ChannelConfig → Option String) where
  get_record-store :
      (r : DeliveryRecord F) (j : String) (e : Engine F)
      → get_record r.alert_id j (store r e)
        ≡ (if r.channel == j then some r else get_record r.alert_id j e)
  unfolding store
  get_record-store r j e =
      get-put (record_key r.alert_id r.channel) (record_key r.alert_id j) r e.records
      ∙ ap (λ b. if b then some r else get_record r.alert_id j e)
          (record_key_iff r.alert_id r.channel j)

  -- The attempts change neither the names of a record nor what is stored.
  abbrev Attempts : DeliveryRecord F → Engine F → DeliveryRecord F × Engine F → Type 0
  Attempts r e x =
      (x.0.alert_id ≡ r.alert_id)
      × (x.0.channel ≡ r.channel)
      × IsFinal x.0
      × (x.1.posts ≤ e.posts + 3)
      × (x.1.records ≡ e.records)
      × (x.1.channels ≡ e.channels)

  Attempts-attempt_loop :
      (a : Alert F) (c : ChannelConfig) (r : DeliveryRecord F) (e : Engine F)
      → Attempts r e (attempt_loop clock post 3 1 a c r e)
  unfolding attempt_loop succeed fail
  Attempts-attempt_loop a c r e = elim (Option-cases (post e.posts a c)) [
    | inl first ↦
        rw (first, attempt_loop) (refl, refl, (λ k. cc k, omega arith), omega arith, refl, refl)
    | inr (x, one) ↦
        rw (one, attempt_loop)
          (elim (Option-cases (post (e.posts + 1) a c)) [
            | inl second ↦ rw second (refl, refl, (λ k. cc k, omega arith), omega arith, refl, refl)
            | inr (y, two) ↦ rw two (elim (Option-cases (post (e.posts + 1 + 1) a c)) [
              | inl third ↦ rw third (refl, refl, (λ k. cc k, omega arith), omega arith, refl, refl)
              | inr (z, three) ↦
                  rw three (refl, refl, (λ k. cc k, omega arith), omega arith, refl, refl)
            ])
          ])
  ]

  -- What the delivery to one channel does: its record, the posts, and what the engine keeps.
  abbrev Delivers : Alert F → String → Engine F → DeliveryRecord F × Engine F → Type 0
  Delivers a ch e x =
      (x.0.alert_id ≡ a.alert_id)
      × (x.0.channel ≡ ch)
      × IsFinal x.0
      × (x.1.posts ≤ e.posts + 3)
      × ((j : String)
          → get_record a.alert_id j x.1 ≡ (if ch == j then some x.0 else get_record a.alert_id j e))
      × (x.1.channels ≡ e.channels)

  -- Storing the final record of an alert under its channel.
  kept :
      (r : DeliveryRecord F) (e : Engine F) (id ch j : String)
      → r.alert_id ≡ id
      → r.channel ≡ ch
      → get_record id j (store r e) ≡ (if ch == j then some r else get_record id j e)
  kept r e id ch j h k =
      subst (λ i. get_record i j (store r e) ≡ (if ch == j then some r else get_record i j e)) h
        (subst
          (λ c.
            get_record r.alert_id j (store r e)
            ≡ (if c == j then some r else get_record r.alert_id j e))
          k (get_record-store r j e))

  -- A record that is final from the start.
  Delivers-store :
      (a : Alert F) (r : DeliveryRecord F) (e : Engine F)
      → r.alert_id ≡ a.alert_id
      → IsFinal r
      → Delivers a r.channel e (r, store r e)
  Delivers-store a r e h k = (
    h,
    refl,
    k,
    unfold store in omega arith,
    (λ j. kept r e a.alert_id r.channel j h refl),
    unfold store in refl,
  )

  -- Storing the same record again, changed.
  kept_again :
      (r r' : DeliveryRecord F) (e e' : Engine F) (id ch j : String)
      → r'.alert_id ≡ id
      → r'.channel ≡ ch
      → get_record id j e' ≡ (if ch == j then some r else get_record id j e)
      → get_record id j (store r' e') ≡ (if ch == j then some r' else get_record id j e)
  kept_again r r' e e' id ch j h k old = elim (Bool-cases (ch == j)) [
    | inl same ↦ kept r' e' id ch j h k ∙ (rw same refl)
    | inr other ↦ kept r' e' id ch j h k ∙ (rw other (old ∙ rw other refl))
  ]

  posts-store : (r : DeliveryRecord F) (e : Engine F) → (store r e).posts ≡ e.posts
  unfolding store
  posts-store r e = refl

  channels-store : (r : DeliveryRecord F) (e : Engine F) → (store r e).channels ≡ e.channels
  unfolding store
  channels-store r e = refl

  Delivers-attempt_delivery :
      (a : Alert F) (ch : String) (c : ChannelConfig) (e : Engine F)
      → Delivers a ch e (attempt_delivery clock post a ch c e)
  unfolding attempt_delivery
  Delivers-attempt_delivery a ch c e =
      let r : DeliveryRecord F = new_record a.alert_id ch c.adapter pending "" in
      let x = attempt_loop clock post 3 1 a c r (store r e) in
      let (named, routed, final, counted, unstored, same) : Attempts r (store r e) x =
        Attempts-attempt_loop a c r (store r e) in
      (
        named,
        routed,
        final,
        omega (arith, posts-store x.0 x.1, posts-store r e),
        (λ j.
            kept_again r x.0 e x.1 a.alert_id ch j named routed
              (ap (get (record_key a.alert_id j)) unstored ∙ kept r e a.alert_id ch j refl refl)),
        channels-store x.0 x.1 ∙ same ∙ channels-store r e,
      )

  Delivers-deliver_to :
      (repr : String → String) (a : Alert F) (ch : String) (c : Option ChannelConfig) (e : Engine F)
      → Delivers a ch e (deliver_to clock post repr a ch c e)
  unfolding deliver_to
  Delivers-deliver_to repr a ch none e =
      Delivers-store a (new_record a.alert_id ch "unknown" failed (not_configured repr ch)) e refl
        (λ k. cc k, omega arith)
  Delivers-deliver_to repr a ch (some c) e =
      elim (Bool-cases (a.status == "resolved" && not c.send_resolved)) [
        | inl skip ↦ rw skip (
            Delivers-store a (new_record a.alert_id ch c.adapter skipped "") e refl
              (λ k. cc k, omega arith))
        | inr go ↦ rw go (Delivers-attempt_delivery a ch c e)
      ]

  -- A delivery makes one record for each channel, in their order, and every one of them is final:
  -- sent, failed or skipped after at most three attempts, none left pending. It posts at most three
  -- times for each channel, and the engine then shows the records that it returned.
  pub deliver_lem :
      (repr : String → String) (a : Alert F) (chs : List String) (e : Engine F)
      → let (rs, e') = deliver clock post repr a chs e in
        (map (λ r. r.channel) rs ≡ chs)
        × All IsFinal rs
        × (e'.posts ≤ e.posts + 3 * length chs)
        × ((j : String) → get_record a.alert_id j e' ≡ shown j rs (get_record a.alert_id j e))
  unfolding deliver shown
  deliver_lem repr a [] e = (refl, tt, omega arith, λ j. refl)
  deliver_lem repr a (ch ∷ chs) e =
      let (r, e₁) = deliver_to clock post repr a ch (get ch e.channels) e in
      let (named, routed, final, counted, shows, same) : Delivers a ch e (r, e₁) =
        Delivers-deliver_to repr a ch (get ch e.channels) e in
      let (routes, finals, counts, later) = deliver_lem repr a chs e₁ in
      (
        rw (routed, routes) refl,
        (final, finals),
        omega arith,
        λ j. later j ∙ ap (shown j (deliver clock post repr a chs e₁).0) (rw routed (shows j)),
      )
