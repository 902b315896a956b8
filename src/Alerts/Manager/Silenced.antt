-- ===== src/Alerts/Manager/Silenced.antt =====
-- What it means that an alert is silenced.
use sketchlog.Prelude.{
  String, ◌≡◌, ◌↔◌, ◌⊎◌, refl, inl, inr, true, List, [], ◌∷◌, arith, Bool-cases,
}
use sketchlog.Prelude.Dict.{Dict, values}
use sketchlog.Prelude.Float.{Float}
use sketchlog.Alerts.{Alert, Silence, silence_matches}
use sketchlog.Alerts.Match.{SilenceFits, silence_matches_lem}
use sketchlog.Alerts.Manager.{any_silence, is_silenced}

-- One of the items has the property.
abbrev pub Any : {A : Type 0} → (A → Type 0) → List A → Type 0
Any P [] = ⊥
Any P (x ∷ xs) = P x ⊎ Any P xs

module _ (f : Float) where
  open f use {F}

  any_silence_iff :
      (silences : List (Silence F)) (a : Alert F) (t : F)
      → (any_silence f silences a t ≡ true) ↔ Any (λ s. SilenceFits f s a t) silences
  unfolding any_silence
  any_silence_iff [] a t = (λ h. cc, λ h. absurd h)
  any_silence_iff (s ∷ silences) a t =
      let (hit, back) = silence_matches_lem f s a t in
      let (later, again) = any_silence_iff silences a t in
      (
        (λ h. elim (Bool-cases (silence_matches f s a t)) [
          | inl matched ↦ inl (hit matched)
          | inr missed ↦ inr (later (rw missed at h))
        ]),
        λ h. elim h [
          | inl fits ↦ rw (back fits) refl
          | inr rest ↦ let found = again rest in ground arith
        ],
      )

  -- An alert is silenced exactly if one of the silences runs at that time and all its criteria fit
  -- the alert.
  pub is_silenced_lem :
      (silences : Dict String (Silence F)) (a : Alert F) (t : F)
      → (is_silenced f silences a t ≡ true) ↔ Any (λ s. SilenceFits f s a t) (values silences)
  unfolding is_silenced
  is_silenced_lem silences a t = any_silence_iff (values silences) a t
