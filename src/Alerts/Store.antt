-- ===== src/Alerts/Store.antt =====
-- `AlertStore`: the active alerts by their ids, the history, and the file that keeps both.
-- The file holds what `_save_locked` wrote last, as the alerts of its two lists; JSON and the
-- file system are not code of the repository.
pub mod Restart
use sketchlog.Prelude.{
  ℕ, suc, ◌-◌, String, ◌≡◌, Bool, true, false, not, ◌&&◌, ◌||◌, Option, none, some, List, [], ◌∷◌,
  ◌++◌, if◌then◌else◌, length, take,
}
use sketchlog.Prelude.Int.{ℤ, pos, negsuc}
use sketchlog.Prelude.Key.{string_key, ◌==◌}
use sketchlog.Prelude.Dict.{Dict, get, put, pop, values}
use sketchlog.Prelude.Exec.{Result, ok, err}
use sketchlog.Prelude.Float.{Float}
use sketchlog.Alerts.{Alert, AlertError, make_alert}

-- The two lists of the file.
pub record Saved (F : Type 0) : Type 0 where
  pub saved_active : List (Alert F)
  pub saved_history : List (Alert F)

-- `persistent` is `bool(persist_path)`.
pub record AlertStore (F : Type 0) : Type 0 where
  pub active : Dict String (Alert F)
  pub history : List (Alert F)
  pub persistent : Bool
  pub file : Option (Saved F)

-- `alert.status in ("resolved", "silenced")`
abbrev pub is_closed : {F : Type 0} → Alert F → Bool
is_closed a = a.status == "resolved" || a.status == "silenced"

-- `not wanted or value == wanted`
abbrev pub keeps : String → String → Bool
keeps wanted value = wanted == "" || value == wanted

module _ {F : Type 0} where
  -- `_save_locked`
  abbrev pub snapshot : AlertStore F → Saved F
  snapshot s = record { saved_active = values s.active; saved_history = s.history }

  unfoldable pub save : AlertStore F → AlertStore F
  save s = if s.persistent then record s { file = some (snapshot s) } else s

  -- `AlertStore.upsert`
  unfoldable pub upsert : Alert F → AlertStore F → AlertStore F
  upsert a s =
      if is_closed a
      then save (record s { active = pop a.alert_id s.active; history = s.history ++ (a ∷ []) })
      else save (record s { active = put a.alert_id a s.active })

  -- `AlertStore.get_active` and `AlertStore.list_active`
  abbrev pub get_active : String → AlertStore F → Option (Alert F)
  get_active id s = get id s.active

  abbrev pub list_active : AlertStore F → List (Alert F)
  list_active s = values s.active

  unfoldable pub reversed : List (Alert F) → List (Alert F)
  reversed [] = []
  reversed (a ∷ xs) = reversed xs ++ (a ∷ [])

  -- The filter of `list_history`.
  unfoldable pub filter_history : String → String → String → List (Alert F) → List (Alert F)
  filter_history namespace stream severity [] = []
  filter_history namespace stream severity (a ∷ xs) =
      let rest = filter_history namespace stream severity xs in
      if keeps namespace a.namespace && keeps stream a.stream && keeps severity a.severity
      then a ∷ rest
      else rest

  -- `results[:limit]`: a negative limit leaves out that many items at the end.
  unfoldable pub up_to : ℤ → List (Alert F) → List (Alert F)
  up_to (pos n) xs = take n xs
  up_to (negsuc n) xs = take (length xs - suc n) xs

  -- `AlertStore.list_history`
  unfoldable pub list_history : String → String → String → ℤ → AlertStore F → List (Alert F)
  list_history namespace stream severity limit s =
      up_to limit (filter_history namespace stream severity (reversed s.history))

module _ (f : Float) (blank : String → Bool) where
  open f use {F}

  -- The loops of `_load`: a saved alert that the constructor refuses is left out.
  abbrev pub put_made :
      Result (List AlertError) (Alert F) → Dict String (Alert F) → Dict String (Alert F)
  put_made (ok a) d = put a.alert_id a d
  put_made (err e) d = d

  unfoldable pub load_active : List (Alert F) → Dict String (Alert F) → Dict String (Alert F)
  load_active [] d = d
  load_active (a ∷ xs) d = load_active xs (put_made (make_alert f blank a) d)

  abbrev pub append_made : Result (List AlertError) (Alert F) → List (Alert F) → List (Alert F)
  append_made (ok a) xs = a ∷ xs
  append_made (err e) xs = xs

  unfoldable pub load_history : List (Alert F) → List (Alert F)
  load_history [] = []
  load_history (a ∷ xs) = append_made (make_alert f blank a) (load_history xs)

  -- `AlertStore.__init__` with a path, where the file may be missing or unreadable (`none`).
  unfoldable pub open_store : Option (Saved F) → AlertStore F
  open_store none = record { active = []; history = []; persistent = true; file = none }
  open_store (some saved) = record {
    active = load_active saved.saved_active [];
    history = load_history saved.saved_history;
    persistent = true;
    file = some saved;
  }
