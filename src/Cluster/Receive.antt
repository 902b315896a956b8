-- ===== src/Cluster/Receive.antt =====
-- What a node keeps of an origin is a register that the update with the highest version wins, be it
-- a snapshot or a tombstone.
use sketchlog.Prelude.{
  String, ◌≡◌, ◌≢◌, ◌⊎◌, refl, ap, sym, ◌∙◌, inl, inr, Bool, true, false, Option, none, some,
  if◌then◌else◌, Bool-cases, arith,
}
use sketchlog.Prelude.Key.{string_key, ◌==◌}
use sketchlog.Prelude.Float.{Float}
use sketchlog.Cluster.{Snapshot, Mesh, bury, keep}
use sketchlog.Cluster.Origins.{
  Table, lookup, insert, remove, IsTable, IsTable-insert, IsTable-remove, lookup-insert,
  lookup-remove_self, lookup-remove_ne,
}

-- What a node knows of an origin of a stream: its snapshot, its tombstone.
abbrev pub View : Type 0 → Type 0
View G = Option (Snapshot G) × Option G

beq_ne : (s j : String) → s ≢ j → (s == j) ≡ false
beq_ne s j ne = elim (Bool-cases (s == j)) [
  | inl same ↦ absurd (ne ((string_key.beq_iff s j).0 same))
  | inr other ↦ other
]

either : {A : Type 0} (b : Bool) (x : A) → (if b then x else x) ≡ x
either true x = refl
either false x = refl

same_place : (s n j m : String) → ((s ≡ j) × (n ≡ m)) ⊎ ((s ≢ j) ⊎ (n ≢ m))
same_place s n j m = elim (Bool-cases (s == j)) [
  | inl one ↦ elim (Bool-cases (n == m)) [
    | inl two ↦ inl ((string_key.beq_iff s j).0 one, (string_key.beq_iff n m).0 two)
    | inr two ↦ inr (inr (λ e. let b = (string_key.beq_iff n m).1 e in absurd (ground arith)))
  ]
  | inr one ↦ inr (inl (λ e. let b = (string_key.beq_iff s j).1 e in absurd (ground arith)))
]

lookup-insert_self :
    {V : Type 0} (s n : String) (v : V) (t : Table V) → lookup s n (insert s n v t) ≡ some v
lookup-insert_self s n v t =
    let one = (string_key.beq_iff s s).1 refl in
    let two = (string_key.beq_iff n n).1 refl in lookup-insert s n s n v t ∙ rw (one, two) refl

lookup-insert_ne :
    {V : Type 0} (s n j m : String) (v : V) (t : Table V)
    → (s ≢ j) ⊎ (n ≢ m)
    → lookup j m (insert s n v t) ≡ lookup j m t
lookup-insert_ne s n j m v t ne = lookup-insert s n j m v t ∙ (elim ne [
  | inl apart ↦ rw (beq_ne s j apart) refl
  | inr apart ↦ rw (beq_ne n m apart) (either (s == j) (lookup j m t))
])

module _ (f : Float) where
  open f use {F}

  abbrev pub view : String → String → Mesh F → View F
  view stream nid s = (lookup stream nid s.peer_snapshots, lookup stream nid s.peer_tombstones)

  -- No origin of a stream has both.
  abbrev pub IsMesh : Mesh F → Type 0
  IsMesh s =
      IsTable s.peer_snapshots
      × IsTable s.peer_tombstones
      × ((stream nid : String)
          → (lookup stream nid s.peer_snapshots ≡ none)
            ⊎ (lookup stream nid s.peer_tombstones ≡ none))

  -- Every other origin is as it was.
  abbrev pub Others : String → String → Mesh F → Mesh F → Type 0
  Others stream nid s s' = (j m : String) → (stream ≢ j) ⊎ (nid ≢ m) → view j m s' ≡ view j m s

  pub bury_lem :
      (stream nid : String) (version : F) (s : Mesh F)
      → IsMesh s
      → IsMesh (bury f stream nid version s)
        × Others stream nid s (bury f stream nid version s)
        × (view stream nid (bury f stream nid version s) ≡ (none, some version))
  unfolding bury
  bury_lem stream nid version s (snaps, dead, apart) =
      let gone = lookup-remove_self stream nid s.peer_snapshots snaps in
      let there = lookup-insert_self stream nid version s.peer_tombstones in
      (
        (
          IsTable-remove stream nid s.peer_snapshots snaps,
          IsTable-insert stream nid version s.peer_tombstones dead,
          λ j m. elim (same_place stream nid j m) [
            | inl here ↦ inl (
                ap (λ i. lookup i m (remove stream nid s.peer_snapshots)) (sym here.0)
                ∙ ap (λ i. lookup stream i (remove stream nid s.peer_snapshots)) (sym here.1)
                ∙ gone)
            | inr other ↦ elim (apart j m) [
              | inl free ↦ inl (lookup-remove_ne stream nid j m s.peer_snapshots snaps other ∙ free)
              | inr free ↦
                  inr (lookup-insert_ne stream nid j m version s.peer_tombstones other ∙ free)
            ]
          ],
        ),
        (λ j m other. λ i. (
          lookup-remove_ne stream nid j m s.peer_snapshots snaps other i,
          lookup-insert_ne stream nid j m version s.peer_tombstones other i,
        )),
        λ i. (gone i, there i),
      )

  pub keep_lem :
      (stream nid : String) (snapshot : Snapshot F) (s : Mesh F)
      → IsMesh s
      → IsMesh (keep f stream nid snapshot s)
        × Others stream nid s (keep f stream nid snapshot s)
        × (view stream nid (keep f stream nid snapshot s) ≡ (some snapshot, none))
  unfolding keep
  keep_lem stream nid snapshot s (snaps, dead, apart) =
      let gone = lookup-remove_self stream nid s.peer_tombstones dead in
      let there = lookup-insert_self stream nid snapshot s.peer_snapshots in
      (
        (
          IsTable-insert stream nid snapshot s.peer_snapshots snaps,
          IsTable-remove stream nid s.peer_tombstones dead,
          λ j m. elim (same_place stream nid j m) [
            | inl here ↦ inr (
                ap (λ i. lookup i m (remove stream nid s.peer_tombstones)) (sym here.0)
                ∙ ap (λ i. lookup stream i (remove stream nid s.peer_tombstones)) (sym here.1)
                ∙ gone)
            | inr other ↦ elim (apart j m) [
              | inl free ↦
                  inl (lookup-insert_ne stream nid j m snapshot s.peer_snapshots other ∙ free)
              | inr free ↦ inr (lookup-remove_ne stream nid j m s.peer_tombstones dead other ∙ free)
            ]
          ],
        ),
        (λ j m other. λ i. (
          lookup-insert_ne stream nid j m snapshot s.peer_snapshots other i,
          lookup-remove_ne stream nid j m s.peer_tombstones dead other i,
        )),
        λ i. (there i, gone i),
      )
