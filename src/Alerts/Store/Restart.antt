-- ===== src/Alerts/Store/Restart.antt =====
-- A store that is opened from its file is the store that wrote it.
use sketchlog.Prelude.{
  String, ◌≡◌, refl, sym, ap, ◌∙◌, inl, inr, Bool, true, false, some, List, [], ◌∷◌, ◌++◌,
  Bool-cases, arith, All,
}
use sketchlog.Prelude.Key.{string_key, ◌==◌}
use sketchlog.Prelude.Dict.{Dict, put, pop, values, contains, IsDict, put-IsDict, pop-IsDict}
use sketchlog.Prelude.Exec.{ok}
use sketchlog.Prelude.Float.{Float}
use sketchlog.Alerts.{Alert, make_alert, alert_errors}
use sketchlog.Alerts.Store.{
  AlertStore, is_closed, snapshot, save, upsert, put_made, load_active, load_history, open_store,
}

module _ (f : Float) (blank : String → Bool) where
  open f use {F}

  -- The constructor accepts the alert.
  abbrev pub IsAlert : Alert F → Type 0
  IsAlert a = alert_errors f blank a ≡ []

  make_alert-ok : (a : Alert F) → IsAlert a → make_alert f blank a ≡ ok a
  unfolding make_alert
  make_alert-ok a h = rw h refl

  -- An active alert stands under its own id and is neither resolved nor silenced.
  abbrev pub IsActive : String × Alert F → Type 0
  IsActive x = IsAlert x.1 × (x.1.alert_id ≡ x.0) × (is_closed x.1 ≡ false)

  abbrev pub IsPast : Alert F → Type 0
  IsPast a = IsAlert a × (is_closed a ≡ true)

  -- A store with a file has in it what it holds.
  abbrev pub IsSaved : AlertStore F → Type 0
  IsSaved s = s.persistent ≡ true → s.file ≡ some (snapshot s)

  abbrev pub IsStore : AlertStore F → Type 0
  IsStore s = IsDict s.active × All IsActive s.active × All IsPast s.history

  All-put :
      (a : Alert F) (d : Dict String (Alert F))
      → IsAlert a
      → is_closed a ≡ false
      → All IsActive d
      → All IsActive (put a.alert_id a d)
  unfolding put
  All-put a [] h k all = ((h, refl, k), tt)
  All-put a ((j, b) ∷ d) h k all = elim (Bool-cases (j == a.alert_id)) [
    | inl same ↦ rw same ((h, sym ((string_key.beq_iff j a.alert_id).0 same), k), all.1)
    | inr other ↦ rw other (all.0, All-put a d h k all.1)
  ]

  All-pop : (id : String) (d : Dict String (Alert F)) → All IsActive d → All IsActive (pop id d)
  unfolding pop
  All-pop id [] all = tt
  All-pop id ((j, b) ∷ d) all = elim (Bool-cases (j == id)) [
    | inl same ↦ rw same all.1
    | inr other ↦ rw other (all.0, All-pop id d all.1)
  ]

  All-append :
      (xs : List (Alert F)) (a : Alert F) → All IsPast xs → IsPast a → All IsPast (xs ++ (a ∷ []))
  All-append [] a all h = (h, tt)
  All-append (b ∷ xs) a all h = (all.0, All-append xs a all.1 h)

  save-IsStore : (s : AlertStore F) → IsStore s → IsStore (save s) × IsSaved (save s)
  unfolding save
  save-IsStore s h = elim (Bool-cases s.persistent) [
    | inl on ↦ simp on (h, λ k. refl)
    | inr off ↦ simp off (h, λ k. cc)
  ]

  pub upsert-IsStore :
      (a : Alert F) (s : AlertStore F)
      → IsAlert a
      → IsStore s
      → IsStore (upsert a s) × IsSaved (upsert a s)
  unfolding upsert
  upsert-IsStore a s h (distinct, active, past) = elim (Bool-cases (is_closed a)) [
    | inl closed ↦ rw closed (
        save-IsStore
          (record s { active = pop a.alert_id s.active; history = s.history ++ (a ∷ []) })
          (
            pop-IsDict a.alert_id s.active distinct,
            All-pop a.alert_id s.active active,
            All-append s.history a past (h, closed),
          ))
    | inr live ↦ rw live (
        save-IsStore (record s { active = put a.alert_id a s.active })
          (put-IsDict a.alert_id a s.active distinct, All-put a s.active h live active, past))
  ]

  append_nil : {A : Type 0} (xs : List A) → xs ++ [] ≡ xs
  append_nil [] = refl
  append_nil (x ∷ xs) = rw (append_nil xs) refl

  shift : {A : Type 0} (xs : List A) (y : A) (ys : List A) → (xs ++ (y ∷ [])) ++ ys ≡ xs ++ (y ∷ ys)
  shift [] y ys = refl
  shift (x ∷ xs) y ys = rw (shift xs y ys) refl

  contains_later :
      (d ds : Dict String (Alert F)) (k : String) (a : Alert F)
      → contains k (d ++ ((k, a) ∷ ds)) ≡ true
  unfolding contains
  contains_later [] ds k a = ground (arith, string_key.beq_iff k k)
  contains_later ((j, b) ∷ d) ds k a = ground (arith, contains_later d ds k a)

  -- A key that comes later in a dictionary is not among those before it.
  fresh :
      (d ds : Dict String (Alert F)) (k : String) (a : Alert F)
      → IsDict (d ++ ((k, a) ∷ ds))
      → put k a d ≡ d ++ ((k, a) ∷ [])
  unfolding put contains
  fresh [] ds k a h = refl
  fresh ((j, b) ∷ d) ds k a h = elim (Bool-cases (j == k)) [
    | inl same ↦
        let eq : j ≡ k = (string_key.beq_iff j k).0 same in
        let none_before : contains k (d ++ ((k, a) ∷ ds)) ≡ false =
          ap (λ i. contains i (d ++ ((k, a) ∷ ds))) (sym eq) ∙ h.0 in
        absurd (ground (arith, none_before, contains_later d ds k a, string_key.beq_iff j k))
    | inr other ↦ rw (other, fresh d ds k a h.1) refl
  ]

  load_active_lem :
      (d ds : Dict String (Alert F))
      → IsDict (d ++ ds)
      → All IsActive ds
      → load_active f blank (values ds) d ≡ d ++ ds
  unfolding load_active
  load_active_lem d [] h all = sym (append_nil d)
  load_active_lem d ((k, a) ∷ ds) h all =
      let (valid, keyed, _) : IsActive (k, a) = all.0 in
      ap (λ r. load_active f blank (values ds) (put_made f blank r d)) (make_alert-ok a valid)
      ∙ ap (λ i. load_active f blank (values ds) (put i a d)) keyed
      ∙ ap (load_active f blank (values ds)) (fresh d ds k a h)
      ∙ load_active_lem (d ++ ((k, a) ∷ [])) ds (rw (shift d (k, a) ds) h) all.1
      ∙ shift d (k, a) ds

  load_history_lem : (xs : List (Alert F)) → All IsPast xs → load_history f blank xs ≡ xs
  unfolding load_history
  load_history_lem [] h = refl
  load_history_lem (a ∷ xs) h = rw (make_alert-ok a h.0.0, load_history_lem xs h.1) refl

  reopened :
      (s : AlertStore F)
      → s.persistent ≡ true
      → IsStore s
      → s.file ≡ some (snapshot s)
      → open_store f blank s.file ≡ s
  unfolding open_store
  reopened s on (distinct, active, past) saved = ap (open_store f blank) saved ∙ (λ i. record {
    active = load_active_lem [] s.active distinct active i;
    history = load_history_lem s.history past i;
    persistent = sym on i;
    file = sym saved i;
  })

  pub persistent-upsert : (a : Alert F) (s : AlertStore F) → (upsert a s).persistent ≡ s.persistent
  unfolding upsert save
  persistent-upsert a s = ground arith

  -- A valid store that writes a file after a valid alert has been stored, and is then opened from
  -- that file, has the same active alerts, in the same order, and the same history: no alert that
  -- it holds is refused.
  pub open_store-upsert :
      (a : Alert F) (s : AlertStore F)
      → s.persistent ≡ true
      → IsAlert a
      → IsStore s
      → open_store f blank (upsert a s).file ≡ upsert a s
  open_store-upsert a s on h k =
      let (stored, saved) = upsert-IsStore a s h k in
      let still = persistent-upsert a s ∙ on in reopened (upsert a s) still stored (saved still)
