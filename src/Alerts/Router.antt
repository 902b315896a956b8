-- ===== src/Alerts/Router.antt =====
-- `AlertRouter`: the channels of an alert.
pub mod Resolve
use sketchlog.Prelude.{
  String, ◌≡◌, refl, inl, inr, Bool, true, false, not, ◌||◌, Option, List, [], ◌∷◌, ◌++◌,
  if◌then◌else◌, Bool-cases, arith, All,
}
use sketchlog.Prelude.Key.{string_key, ◌==◌, member}
use sketchlog.Alerts.{Alert, Route, route_matches}

pub record Router : Type 0 where
  pub routes : List Route
  pub default_channels : List String

-- `AlertRouter.add_route`
abbrev pub add_route : Route → Router → Router
add_route r s = record s { routes = s.routes ++ (r ∷ []) }

-- `matched.extend(ch for ch in channels if ch not in matched)`: the test of a channel sees the ones
-- that the same call has already appended.
unfoldable pub extend : List String → List String → List String
extend [] matched = matched
extend (c ∷ cs) matched =
    let kept = extend cs matched in
    let added = extend cs (matched ++ (c ∷ [])) in if member c matched then kept else added

abbrev pub or_default : List String → List String → List String
or_default [] defaults = defaults
or_default (c ∷ cs) defaults = c ∷ cs

module _ {F : Type 0} where
  -- The loop of `resolve_channels`, and what follows it.
  unfoldable pub scan_routes : Alert F → List Route → List String → List String → List String
  scan_routes a [] matched defaults = or_default matched defaults
  scan_routes a (r ∷ routes) matched defaults =
      let skipped = scan_routes a routes matched defaults in
      let found = extend r.channels matched in
      let continued = scan_routes a routes found defaults in
      if route_matches r a then (if not r.continue_matching then found else continued) else skipped

  -- `AlertRouter.resolve_channels`
  unfoldable pub resolve_channels : Router → Alert F → List String
  resolve_channels s a = scan_routes a s.routes [] s.default_channels
