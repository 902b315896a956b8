-- ===== src/Alerts/Router/Resolve.antt =====
-- The channels of an alert: those of the routes that it reaches, each once, or the default ones.
use sketchlog.Prelude.{
  String, ◌≡◌, refl, inl, inr, Bool, true, false, not, ◌||◌, List, [], ◌∷◌, ◌++◌, if◌then◌else◌,
  Bool-cases, arith, All, length, ◌<◌,
}
use sketchlog.Prelude.Key.{string_key, member}
use sketchlog.Alerts.{Alert, Route, route_matches}
use sketchlog.Alerts.Router.{Router, extend, or_default, scan_routes, resolve_channels}

-- No item stands in the list twice.
abbrev pub IsDistinct : List String → Type 0
IsDistinct [] = Unit
IsDistinct (x ∷ xs) = (member x xs ≡ false) × IsDistinct xs

append_assoc : (xs ys zs : List String) → (xs ++ ys) ++ zs ≡ xs ++ (ys ++ zs)
append_assoc [] ys zs = refl
append_assoc (x ∷ xs) ys zs = rw (append_assoc xs ys zs)

member-append :
    (c : String) (xs ys : List String) → member c (xs ++ ys) ≡ (member c xs || member c ys)
unfolding member
member-append c [] ys = refl
member-append c (x ∷ xs) ys = ground (arith, member-append c xs ys)

member-extend :
    (c : String) (cs matched : List String)
    → member c (extend cs matched) ≡ (member c matched || member c cs)
unfolding extend member
member-extend c [] matched = ground arith
member-extend c (d ∷ cs) matched = elim (Bool-cases (member d matched)) [
  | inl old ↦ rw old (ground (arith, member-extend c cs matched, string_key.beq_iff d c))
  | inr new ↦ rw new (
      ground (
        arith,
        member-extend c cs (matched ++ (d ∷ [])),
        member-append c matched (d ∷ []),
        string_key.beq_iff d c,
      ))
]

IsDistinct-append :
    (xs : List String) (c : String)
    → IsDistinct xs
    → member c xs ≡ false
    → IsDistinct (xs ++ (c ∷ []))
unfolding member
IsDistinct-append [] c h k = (refl, tt)
IsDistinct-append (x ∷ xs) c h k = (
  ground (arith, member-append x xs (c ∷ []), string_key.beq_iff c x, string_key.beq_iff x c),
  IsDistinct-append xs c h.1 (ground arith),
)

IsDistinct-extend : (cs matched : List String) → IsDistinct matched → IsDistinct (extend cs matched)
unfolding extend
IsDistinct-extend [] matched h = h
IsDistinct-extend (c ∷ cs) matched h = elim (Bool-cases (member c matched)) [
  | inl old ↦ rw old (IsDistinct-extend cs matched h)
  | inr new ↦
      rw new (IsDistinct-extend cs (matched ++ (c ∷ [])) (IsDistinct-append matched c h new))
]

extend-append :
    (cs ds matched : List String) → extend (cs ++ ds) matched ≡ extend ds (extend cs matched)
unfolding extend
extend-append [] ds matched = refl
extend-append (c ∷ cs) ds matched = elim (Bool-cases (member c matched)) [
  | inl old ↦ rw old (extend-append cs ds matched)
  | inr new ↦ rw new (extend-append cs ds (matched ++ (c ∷ [])))
]

module _ {F : Type 0} where
  -- The channels of the routes that an alert reaches: the matching ones, up to the first of them
  -- that does not continue.
  unfoldable pub wanted : Alert F → List Route → List String
  wanted a [] = []
  wanted a (r ∷ routes) =
      if route_matches r a
      then r.channels ++ (if r.continue_matching then wanted a routes else [])
      else wanted a routes

  unfoldable pub any_match : Alert F → List Route → Bool
  any_match a [] = false
  any_match a (r ∷ routes) = route_matches r a || any_match a routes

or_default-filled : (xs ds : List String) → 0 < length xs → or_default xs ds ≡ xs
or_default-filled [] ds h = absurd (ground arith)
or_default-filled (x ∷ xs) ds h = refl

filled_of_member : (c : String) (xs : List String) → member c xs ≡ true → 0 < length xs
unfolding member
filled_of_member c [] h = absurd (ground arith)
filled_of_member c (x ∷ xs) h = ground arith

member_head : (c : String) (cs : List String) → member c (c ∷ cs) ≡ true
unfolding member
member_head c cs = ground (arith, string_key.beq_iff c c)

-- A route that names a channel leaves a channel.
extend-filled : (cs matched : List String) → 0 < length cs → 0 < length (extend cs matched)
extend-filled [] matched h = absurd (ground arith)
extend-filled (c ∷ cs) matched h =
    filled_of_member c (extend (c ∷ cs) matched)
      (ground (arith, member-extend c (c ∷ cs) matched, member_head c cs))

abbrev pub NamesChannels : Route → Type 0
NamesChannels r = 0 < length r.channels

-- A matching route: the loop goes on with its channels appended, or ends there.
reached :
    (b : Bool) (cs ds matched result : List String)
    → result ≡ extend ds (extend cs matched)
    → (if not b then extend cs matched else result) ≡ extend (cs ++ (if b then ds else [])) matched
reached true cs ds matched result e = rw (extend-append cs ds matched) e
reached false cs ds matched result e = rw (extend-append cs [] matched) (unfold extend in refl)

module _ {F : Type 0} where
  -- Once a route has matched, the rest of the loop only adds channels.
  scan_routes-filled :
      (a : Alert F) (routes : List Route) (matched defaults : List String)
      → All NamesChannels routes
      → 0 < length matched
      → scan_routes a routes matched defaults ≡ extend (wanted a routes) matched
  unfolding scan_routes wanted
  scan_routes-filled a [] matched defaults h k =
      unfold extend in or_default-filled matched defaults k
  scan_routes-filled a (r ∷ routes) matched defaults h k = elim (Bool-cases (route_matches r a)) [
    | inl hit ↦ rw hit (
        reached r.continue_matching r.channels (wanted a routes) matched _ (
          scan_routes-filled a routes (extend r.channels matched) defaults h.1
            (extend-filled r.channels matched h.0)))
    | inr miss ↦ rw miss (scan_routes-filled a routes matched defaults h.1 k)
  ]

  scan_routes_lem :
      (a : Alert F) (routes : List Route) (defaults : List String)
      → All NamesChannels routes
      → scan_routes a routes [] defaults
        ≡ (if any_match a routes then extend (wanted a routes) [] else defaults)
  unfolding scan_routes wanted any_match
  scan_routes_lem a [] [] h = refl
  scan_routes_lem a [] (d ∷ ds) h = refl
  scan_routes_lem a (r ∷ routes) defaults h = elim (Bool-cases (route_matches r a)) [
    | inl hit ↦ rw hit (
        reached r.continue_matching r.channels (wanted a routes) [] _ (
          scan_routes-filled a routes (extend r.channels []) defaults h.1
            (extend-filled r.channels [] h.0)))
    | inr miss ↦ rw miss (scan_routes_lem a routes defaults h.1)
  ]

  -- The channels of an alert that a route matches are those of the matching routes up to the first
  -- one that does not continue, each of them once; an alert that no route matches has the default
  -- channels. Every route names a channel, as its constructor demands.
  pub resolve_channels_lem :
      (s : Router) (a : Alert F)
      → All NamesChannels s.routes
      → (any_match a s.routes ≡ true
          → IsDistinct (resolve_channels s a)
            × ((c : String) → member c (resolve_channels s a) ≡ member c (wanted a s.routes)))
        × (any_match a s.routes ≡ false → resolve_channels s a ≡ s.default_channels)
  unfolding resolve_channels
  resolve_channels_lem s a h = rw (scan_routes_lem a s.routes s.default_channels h) (
    (λ hit. rw hit (
      IsDistinct-extend (wanted a s.routes) [] tt,
      λ c. unfold member in member-extend c (wanted a s.routes) [],
    )),
    λ miss. rw miss refl,
  )
