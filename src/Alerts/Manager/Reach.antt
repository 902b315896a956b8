-- ===== src/Alerts/Manager/Reach.antt =====
-- Every manager that its methods can produce is valid.
use mathlib.Core.Path.{subst}
use sketchlog.Prelude.{
  ℕ, sym, ◌∙◌, length, arith, ◌==◌ as nat_eq, String, ◌≡◌, refl, Bool, true, false, Option, none,
  some, List, [], ◌∷◌, ◌++◌, All, inl, inr, Bool-cases, Option-cases,
}
use sketchlog.Prelude.Key.{string_key}
use sketchlog.Prelude.Exec.{Result, ok, err, raise_errors-ok, no_error}
use sketchlog.Prelude.Float.{Float}
use sketchlog.Alerts.{
  Alert, Silence, Route, ChannelConfig, AlertError, make_alert, make_route, make_silence,
  alert_errors, no_channels, silence_alert, resolve_alert,
}
use sketchlog.Alerts.Router.Resolve.{NamesChannels}
use sketchlog.Alerts.Store.{AlertStore, upsert, open_store, get_active}
use sketchlog.Alerts.Store.Restart.{
  IsAlert, IsStore, upsert-IsStore, open_store-upsert, persistent-upsert,
}
use sketchlog.Alerts.Manager.{
  Manager, init, ingest, resolve, add_silence, remove_silence, add_channel, add_route, is_silenced,
  notify, store_silenced, resolve_made, tick,
}

module _ (f : Float) (blank : String → Bool) where
  open f use {F}

  -- A store that writes a file is what opening that file gives.
  abbrev pub IsDurable : AlertStore F → Type 0
  IsDurable s = s.persistent ≡ true → open_store f blank s.file ≡ s

  abbrev pub IsManager : Manager F → Type 0
  IsManager m = IsStore f blank m.store × IsDurable m.store × All NamesChannels m.router.routes

module _ (f : Float) (blank : String → Bool) (repr : String → String) (clock : ℕ → f.F)
    (post : ℕ → Alert f.F → ChannelConfig → Option String) where
  open f use {F}

  abbrev restarted : List ChannelConfig → List Route → List String → Manager F → Manager F
  restarted channels routes defaults m =
      init f blank repr clock post channels routes defaults true m.store.file

  -- The managers that a program can hold: a new one, one that is opened from the file of another,
  -- and what the calls of the methods make of them; their arguments passed the constructors.
  pub data Reachable : Manager F → Type 0 where
    start :
        (channels : List ChannelConfig) (routes : List Route) (defaults : List String)
        (persistent : Bool)
        → All (λ r. make_route r ≡ ok r) routes
        → Reachable (init f blank repr clock post channels routes defaults persistent none)
    restart :
        (channels : List ChannelConfig) (routes : List Route) (defaults : List String)
        (m : Manager F)
        → All (λ r. make_route r ≡ ok r) routes
        → m.store.persistent ≡ true
        → Reachable m
        → Reachable (restarted channels routes defaults m)
    after_ingest :
        (a : Alert F) (m : Manager F)
        → make_alert f blank a ≡ ok a
        → Reachable m
        → Reachable (ingest f blank repr clock post a m).1
    after_resolve :
        (id : String) (m : Manager F)
        → Reachable m
        → Reachable (resolve f blank repr clock post id m).1
    after_add_silence :
        (s : Silence F) (m : Manager F)
        → make_silence f s ≡ ok s
        → Reachable m
        → Reachable (add_silence s m)
    after_remove_silence :
        (id : String) (m : Manager F) → Reachable m → Reachable (remove_silence id m).1
    after_add_channel :
        (c : ChannelConfig) (m : Manager F) → Reachable m → Reachable (add_channel c m)
    after_add_route :
        (r : Route) (m : Manager F) → make_route r ≡ ok r → Reachable m → Reachable (add_route r m)

  NamesChannels-make_route : (r : Route) → make_route r ≡ ok r → NamesChannels r
  unfolding make_route
  NamesChannels-make_route r h =
      let (clean, _) = raise_errors-ok _ r r h in
      let (filled, _) = no_error (nat_eq (length r.channels) 0) no_channels _ clean in ground arith

  All-NamesChannels :
      (routes : List Route) → All (λ r. make_route r ≡ ok r) routes → All NamesChannels routes
  All-NamesChannels [] h = tt
  All-NamesChannels (r ∷ routes) h = (NamesChannels-make_route r h.0, All-NamesChannels routes h.1)

  NamesChannels-append :
      (routes : List Route) (r : Route)
      → All NamesChannels routes
      → NamesChannels r
      → All NamesChannels (routes ++ (r ∷ []))
  NamesChannels-append [] r h k = (k, tt)
  NamesChannels-append (x ∷ routes) r h k = (h.0, NamesChannels-append routes r h.1 k)

  init-IsManager :
      (channels : List ChannelConfig) (routes : List Route) (defaults : List String)
      (persistent : Bool)
      → All (λ r. make_route r ≡ ok r) routes
      → IsManager f blank (init f blank repr clock post channels routes defaults persistent none)
  unfolding init open_store
  init-IsManager channels routes defaults true h =
      ((tt, tt, tt), (λ k. refl), All-NamesChannels routes h)
  init-IsManager channels routes defaults false h =
      ((tt, tt, tt), (λ k. cc), All-NamesChannels routes h)

  restarted-IsManager :
      (channels : List ChannelConfig) (routes : List Route) (defaults : List String) (m : Manager F)
      → All (λ r. make_route r ≡ ok r) routes
      → m.store.persistent ≡ true
      → IsManager f blank m
      → IsManager f blank (restarted channels routes defaults m)
  unfolding init
  restarted-IsManager channels routes defaults m h on (stored, durable, named) =
      let same = durable on in
      (
        subst (IsStore f blank) (sym same) stored,
        subst (IsDurable f blank) (sym same) durable,
        All-NamesChannels routes h,
      )

  upsert-IsManager :
      (a : Alert F) (s : AlertStore F)
      → IsAlert f blank a
      → IsStore f blank s
      → IsStore f blank (upsert a s) × IsDurable f blank (upsert a s)
  upsert-IsManager a s h stored = (
    (upsert-IsStore f blank a s h stored).0,
    λ on. open_store-upsert f blank a s (sym (persistent-upsert f blank a s) ∙ on) h stored,
  )

  IsAlert-make_alert : (a b : Alert F) → make_alert f blank a ≡ ok b → IsAlert f blank b
  unfolding make_alert
  IsAlert-make_alert a b h =
      let (clean, same) = raise_errors-ok (alert_errors f blank a) a b h in
      subst (IsAlert f blank) same clean

  store_silenced-IsManager :
      (r : Result (List AlertError) (Alert F)) (a : Alert F) (m : Manager F)
      → make_alert f blank a ≡ r
      → IsManager f blank m
      → IsManager f blank (store_silenced f blank repr clock post r m).1
  store_silenced-IsManager (ok b) a m h (stored, durable, named) =
      let (stored', durable') = upsert-IsManager b m.store (IsAlert-make_alert a b h) stored in
      (stored', durable', named)
  store_silenced-IsManager (err e) a m h k = k

  ingest-IsManager :
      (a : Alert F) (m : Manager F)
      → IsAlert f blank a
      → IsManager f blank m
      → IsManager f blank (ingest f blank repr clock post a m).1
  unfolding ingest notify
  ingest-IsManager a m h k =
      elim (Bool-cases (is_silenced f m.silences a (clock m.delivery.ticks))) [
        | inl matched ↦ rw matched (
            store_silenced-IsManager (silence_alert f blank a) (record a { status = "silenced" })
              (tick m) (unfold silence_alert in refl) k)
        | inr unmatched ↦
            rw unmatched
              (let (stored, durable) = upsert-IsManager a m.store h k.0 in (stored, durable, k.2))
      ]

  resolve_made-IsManager :
      (r : Result (List AlertError) (Alert F)) (a : Alert F) (m : Manager F)
      → make_alert f blank a ≡ r
      → IsManager f blank m
      → IsManager f blank (resolve_made f blank repr clock post r m).1
  unfolding notify
  resolve_made-IsManager (ok b) a m h (stored, durable, named) =
      let (stored', durable') = upsert-IsManager b m.store (IsAlert-make_alert a b h) stored in
      (stored', durable', named)
  resolve_made-IsManager (err e) a m h k = k

  resolve-IsManager :
      (id : String) (m : Manager F)
      → IsManager f blank m
      → IsManager f blank (resolve f blank repr clock post id m).1
  unfolding resolve
  resolve-IsManager id m k = elim (Option-cases (get_active id m.store)) [
    | inl missing ↦ rw missing k
    | inr (a, found) ↦ rw found (
        resolve_made-IsManager (resolve_alert f blank (clock m.delivery.ticks) a)
          (record a { status = "resolved"; resolved_at = some (clock m.delivery.ticks) }) (tick m)
          (unfold resolve_alert in refl) k)
  ]

  -- Whatever calls led to a manager, restarts from its file included: its active alerts stand under
  -- their own ids, are valid and are neither resolved nor silenced, its history holds only valid
  -- alerts that are, its routes name channels, and opening the file of a persistent store gives
  -- that store.
  pub Reachable-IsManager : (m : Manager F) → Reachable m → IsManager f blank m
  unfolding add_silence remove_silence
  Reachable-IsManager _ (start channels routes defaults persistent h) =
      init-IsManager channels routes defaults persistent h
  Reachable-IsManager _ (restart channels routes defaults m h on r) =
      restarted-IsManager channels routes defaults m h on (Reachable-IsManager m r)
  Reachable-IsManager _ (after_ingest a m h r) =
      ingest-IsManager a m (IsAlert-make_alert a a h) (Reachable-IsManager m r)
  Reachable-IsManager _ (after_resolve id m r) = resolve-IsManager id m (Reachable-IsManager m r)
  Reachable-IsManager _ (after_add_silence s m h r) = Reachable-IsManager m r
  Reachable-IsManager _ (after_remove_silence id m r) = Reachable-IsManager m r
  Reachable-IsManager _ (after_add_channel c m r) = Reachable-IsManager m r
  Reachable-IsManager _ (after_add_route c m h r) =
      let (stored, durable, named) = Reachable-IsManager m r in
      (stored, durable, NamesChannels-append m.router.routes c named (NamesChannels-make_route c h))
