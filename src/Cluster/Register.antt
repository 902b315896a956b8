-- ===== src/Cluster/Register.antt =====
-- One update of an origin, as the code refuses or takes it.
use sketchlog.Prelude.{
  ℕ, String, ◌≡◌, refl, inl, inr, Bool, true, false, ◌||◌, Option, none, some, if◌then◌else◌, ltb,
  Bool-cases, arith, ◌==◌ as nat_eq,
}
use sketchlog.Prelude.Key.{string_key, ◌==◌}
use sketchlog.Prelude.Float.{Float}
use sketchlog.Log.{StreamLog}
use sketchlog.Cluster.{
  Mesh, Update, known_version, bad_version, no_room, commit, is_undecoded, version_or,
  max_identifier, receive_update,
}
use sketchlog.Cluster.Receive.{View, view, IsMesh, Others, bury_lem, keep_lem}

module _ (f : Float) where
  open f use {F, le}

  -- What an update says of its origin.
  abbrev pub told : Update F → F → View F
  told u version = if u.is_tombstone then (none, some version) else (
    elim u.state [ none ↦ none | some log ↦ some (record { log = log; version = version }) ],
    none,
  )

  -- The update can be read, is of another node, and there is room for its origin.
  abbrev pub IsWelcome : (String → ℕ) → F → String → String → Update F → Mesh F → Type 0
  IsWelcome size version stream nid u s =
      ((nat_eq (size nid) 0 || ltb max_identifier (size nid)) ≡ false)
      × ((nid == s.node_id) ≡ false)
      × (bad_version f version ≡ false)
      × (is_undecoded f u ≡ false)
      × (no_room f stream nid s ≡ false)

  -- The mesh is valid, and only this origin may have changed.
  abbrev Local : String → String → Mesh F → Mesh F → Type 0
  Local stream nid s s' = IsMesh f s' × Others f stream nid s s'

  Local-if :
      (b : Bool) (stream nid : String) (s x y : Mesh F)
      → Local stream nid s x
      → Local stream nid s y
      → Local stream nid s (if b then x else y)
  Local-if true stream nid s x y h k = h
  Local-if false stream nid s x y h k = k

  same-if : (b : Bool) (s x : Mesh F) → x ≡ s → (if b then s else x) ≡ s
  same-if true s x h = refl
  same-if false s x h = h

  commit_lem :
      (stream nid : String) (version : F) (u : Update F) (s : Mesh F)
      → IsMesh f s
      → is_undecoded f u ≡ false
      → Local stream nid s (commit f stream nid version u s)
        × (view f stream nid (commit f stream nid version u s) ≡ told u version)
  commit_lem stream nid version u s h read = go u.is_tombstone refl u.state refl
    where
      go :
          (b : Bool)
          → u.is_tombstone ≡ b
          → (o : Option (StreamLog F)) → u.state ≡ o
          → Local stream nid s (commit f stream nid version u s)
            × (view f stream nid (commit f stream nid version u s) ≡ told u version)
      go true e o e' =
          let (valid, others, is) = bury_lem f stream nid version s h in
          simp e ((valid, others), is)
      go false e (some log) e' =
          let (valid, others, is) =
            keep_lem f stream nid (record { log = log; version = version }) s h in
          simp (e, e') ((valid, others), is)
      go false e none e' = absurd (ground (arith, e, e', read))

  receive_update-Local :
      (size : String → ℕ) (timestamp : F) (stream nid : String) (u : Update F) (s : Mesh F)
      → IsMesh f s
      → Local stream nid s (receive_update f size timestamp stream nid u s)
  unfolding receive_update
  receive_update-Local size timestamp stream nid u s h =
      let version = version_or f timestamp u.given_version in
      let same : Local stream nid s s = (h, λ j m apart. refl) in
      Local-if (nat_eq (size nid) 0 || ltb max_identifier (size nid)) stream nid s s _ same (
        Local-if (nid == s.node_id) stream nid s s _ same (
          Local-if (bad_version f version) stream nid s s _ same
            (read stream nid version u s h same)))
    where
      read :
          (stream nid : String) (version : F) (u : Update F) (s : Mesh F)
          → IsMesh f s
          → Local stream nid s s
          → Local stream nid s (
              if is_undecoded f u
              then s
              else if no_room f stream nid s
              then s
              else if le version (known_version f stream nid s)
              then s
              else commit f stream nid version u s)
      read stream nid version u s h same = elim (Bool-cases (is_undecoded f u)) [
        | inl bad ↦ rw bad same
        | inr good ↦ rw good (
            Local-if (no_room f stream nid s) stream nid s s _ same (
              Local-if (le version (known_version f stream nid s)) stream nid s s _ same
                (commit_lem stream nid version u s h good).0))
      ]

  receive_update-stale :
      (size : String → ℕ) (timestamp : F) (stream nid : String) (u : Update F) (s : Mesh F)
      → le (version_or f timestamp u.given_version) (known_version f stream nid s) ≡ true
      → receive_update f size timestamp stream nid u s ≡ s
  unfolding receive_update
  receive_update-stale size timestamp stream nid u s stale =
      same-if (nat_eq (size nid) 0 || ltb max_identifier (size nid)) s _ (
        same-if (nid == s.node_id) s _ (
          same-if (bad_version f (version_or f timestamp u.given_version)) s _ (
            same-if (is_undecoded f u) s _ (same-if (no_room f stream nid s) s _ (rw stale refl)))))

  -- An update of a valid mesh refines a register: if its version is not newer than what the node
  -- knows of the origin, nothing changes; if it is newer and welcome, the node then knows what it
  -- says and nothing else of that origin, a snapshot or a tombstone. No other origin changes, and
  -- no origin ever has a snapshot and a tombstone at once.
  pub receive_update_lem :
      (size : String → ℕ) (timestamp : F) (stream nid : String) (u : Update F) (s : Mesh F)
      → IsMesh f s
      → let version = version_or f timestamp u.given_version in
        let s' = receive_update f size timestamp stream nid u s in
        IsMesh f s'
        × Others f stream nid s s'
        × (le version (known_version f stream nid s) ≡ true → s' ≡ s)
        × (le version (known_version f stream nid s) ≡ false
            → IsWelcome size version stream nid u s
            → view f stream nid s' ≡ told u version)
  receive_update_lem size timestamp stream nid u s h =
      let (valid, others) = receive_update-Local size timestamp stream nid u s h in
      (valid, others, receive_update-stale size timestamp stream nid u s, taken)
    where
      taken :
          le (version_or f timestamp u.given_version) (known_version f stream nid s) ≡ false
          → IsWelcome size (version_or f timestamp u.given_version) stream nid u s
          → view f stream nid (receive_update f size timestamp stream nid u s)
            ≡ told u (version_or f timestamp u.given_version)
      taken newer (sized, foreign, good, read, room) =
          unfold receive_update in
          rw (sized, foreign, good, read, room, newer)
            (commit_lem stream nid (version_or f timestamp u.given_version) u s h read).1
