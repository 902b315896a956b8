-- ===== src/Cluster.antt =====
-- cluster.py: what a node keeps of the streams of its peers, and its own deletions. A stream key is
-- the JSON text of a namespace and a stream name; a version is a `float`.
pub mod Origins
pub mod Receive
pub mod Register
pub mod Members
pub mod Deletion
use sketchlog.Prelude.{
  ℕ, String, ◌≡◌, Bool, true, false, not, ◌&&◌, ◌||◌, Option, none, some, List, [], ◌∷◌, length,
  if◌then◌else◌, ltb, leb, ◌==◌ as nat_eq,
}
use sketchlog.Prelude.Key.{string_key, ◌==◌}
use sketchlog.Prelude.Dict.{Dict, get, put, pop, contains, get_or, values}
use sketchlog.Prelude.Exec.{Result, ok, err, Exec, and_then}
use sketchlog.Prelude.Float.{Float, fmax}
use sketchlog.Log.{StreamLog, LogError}
use sketchlog.Log
use sketchlog.Cluster.Origins.{Table, row, insert, remove, count_known, is_known}

-- MAX_PEER_STREAMS, MAX_ORIGINS_PER_STREAM and MAX_IDENTIFIER_LENGTH
abbrev pub max_peer_streams : ℕ
max_peer_streams = 10000

abbrev pub max_origins : ℕ
max_origins = 50

abbrev pub max_identifier : ℕ
max_identifier = 255

-- A snapshot of an origin and its version.
pub record Snapshot (F : Type 0) : Type 0 where
  pub log : StreamLog F
  pub version : F

pub record Mesh (F : Type 0) : Type 0 where
  pub node_id : String
  pub max_local_tombstones : ℕ
  pub peer_snapshots : Table (Snapshot F)
  pub peer_tombstones : Table F
  pub local_tombstones : Dict String F

-- The data of one origin in a gossip message: `"__version__"` if it is there, whether
-- `"__tombstone__"` is true, and what `StreamLog.from_dict` makes of the state, `none` if it raises.
pub record Update (F : Type 0) : Type 0 where
  pub given_version : Option F
  pub is_tombstone : Bool
  pub state : Option (StreamLog F)

pub data MeshError : Type 0 where
  bad_sender tombstones_full : MeshError

module _ (f : Float) where
  open f use {F, of_nat, lt, le, add, eq, is_nan, is_inf, millionth}

  abbrev pub snapshot_version : Option (Snapshot F) → F
  snapshot_version none = of_nat 0
  snapshot_version (some s) = s.version

  abbrev pub or_zero : Option F → F
  or_zero none = of_nat 0
  or_zero (some v) = v

  -- `max(existing_snapshot, existing_tombstone)`
  unfoldable pub known_version : String → String → Mesh F → F
  known_version stream nid s =
      fmax f (snapshot_version (get nid (row stream s.peer_snapshots)))
        (or_zero (get nid (row stream s.peer_tombstones)))

  abbrev pub bad_version : F → Bool
  bad_version v = is_nan v || is_inf v || lt v (of_nat 0)

  -- A stream, or an origin of it, that is new where there is no room for one more.
  unfoldable pub no_room : String → String → Mesh F → Bool
  no_room stream nid s =
      let origins = row stream s.peer_snapshots in
      let dead = row stream s.peer_tombstones in
      (not (is_known stream s.peer_snapshots s.peer_tombstones)
        && leb max_peer_streams (count_known s.peer_snapshots s.peer_tombstones))
      || (not (is_known nid origins dead) && leb max_origins (count_known origins dead))

  -- The two commits of `receive_snapshot`.
  unfoldable pub bury : String → String → F → Mesh F → Mesh F
  bury stream nid version s = record s {
    peer_snapshots = remove stream nid s.peer_snapshots;
    peer_tombstones = insert stream nid version s.peer_tombstones;
  }

  unfoldable pub keep : String → String → Snapshot F → Mesh F → Mesh F
  keep stream nid snapshot s = record s {
    peer_snapshots = insert stream nid snapshot s.peer_snapshots;
    peer_tombstones = remove stream nid s.peer_tombstones;
  }

  abbrev pub commit : String → String → F → Update F → Mesh F → Mesh F
  commit stream nid version u s =
      if u.is_tombstone then bury stream nid version s else elim u.state [
        | none ↦ s
        | some log ↦ keep stream nid (record { log = log; version = version }) s
      ]

  abbrev pub is_undecoded : Update F → Bool
  is_undecoded u = not u.is_tombstone && (elim u.state [ none ↦ true | some _ ↦ false ])

  abbrev pub version_or : F → Option F → F
  version_or timestamp none = timestamp
  version_or timestamp (some v) = v

  -- The body of the inner loop of `receive_snapshot`, for an origin id of type `str`; `size` is
  -- `len` of a `str`.
  unfoldable pub receive_update :
      (size : String → ℕ) → F → String → String → Update F → Mesh F → Mesh F
  receive_update size timestamp stream nid u s =
      let version = version_or timestamp u.given_version in
      if nat_eq (size nid) 0 || ltb max_identifier (size nid)
      then s
      else if nid == s.node_id
      then s
      else if bad_version version
      then s
      else if is_undecoded u
      then s
      else if no_room stream nid s
      then s
      else if le version (known_version stream nid s)
      then s
      else commit stream nid version u s

  -- `receive_snapshot`: the loops over the streams of a message and over the origins of each;
  -- `valid_key` is `_valid_stream_key`, which parses JSON.
  unfoldable pub receive_origins :
      (String → ℕ) → F → String → Dict String (Update F) → Mesh F → Mesh F
  receive_origins size timestamp stream [] s = s
  receive_origins size timestamp stream ((nid, u) ∷ origins) s =
      receive_origins size timestamp stream origins (receive_update size timestamp stream nid u s)

  unfoldable pub receive_streams :
      (String → ℕ)
      → (valid_key : String → Bool) → F
      → Dict String (Dict String (Update F))
      → Mesh F
      → Mesh F
  receive_streams size valid_key timestamp [] s = s
  receive_streams size valid_key timestamp ((stream, origins) ∷ streams) s =
      receive_streams size valid_key timestamp streams
        (if valid_key stream then receive_origins size timestamp stream origins s else s)

  unfoldable pub receive_snapshot :
      (String → ℕ)
      → (valid_key : String → Bool) → (sender : String) → Dict String (Dict String (Update F))
      → F
      → Exec MeshError (Mesh F) (Unit {0})
  receive_snapshot size valid_key sender streams timestamp s =
      if nat_eq (size sender) 0 || ltb max_identifier (size sender)
      then (err bad_sender, s)
      else (ok tt, receive_streams size valid_key timestamp streams s)

  -- `has_peer_data` of a stream key.
  unfoldable pub has_peer_data : String → Mesh F → Bool
  has_peer_data stream s = not (nat_eq (length (row stream s.peer_snapshots)) 0)

  -- The loop of `get_merged_stream`: the snapshots of the peers are merged into a copy of the local
  -- stream, and a merge that raises ends it.
  unfoldable pub merge_peers : List (Snapshot F) → Exec LogError (StreamLog F) (Unit {0})
  merge_peers [] merged = (ok tt, merged)
  merge_peers (s ∷ snapshots) merged = and_then (Log.merge f s.log merged) (merge_peers snapshots)

  unfoldable pub get_merged_stream :
      String → StreamLog F → Mesh F → Result LogError (Unit {0}) × StreamLog F
  get_merged_stream stream local s = merge_peers (values (row stream s.peer_snapshots)) local

  abbrev pub is_missing : Option F → Bool
  is_missing none = true
  is_missing (some v) = false

  -- `begin_deletion` of a stream key on a reading of the clock: the version, and the one before.
  unfoldable pub begin_deletion : String → F → Exec MeshError (Mesh F) (F × Option F)
  begin_deletion key now s =
      let previous = get key s.local_tombstones in
      let committed = fmax f now (add (or_zero previous) millionth) in
      if is_missing previous && leb s.max_local_tombstones (length s.local_tombstones)
      then (err tombstones_full, s)
      else (
        ok (committed, previous),
        record s { local_tombstones = put key committed s.local_tombstones },
      )

  -- `self.local_tombstones.get(key) != version`
  abbrev pub is_other : Option F → F → Bool
  is_other none v = true
  is_other (some w) v = not (eq w v)

  abbrev pub put_back : String → Option F → Dict String F → Dict String F
  put_back key none d = pop key d
  put_back key (some v) d = put key v d

  unfoldable pub rollback_deletion : String → F → Option F → Mesh F → Mesh F
  rollback_deletion key version previous s =
      if is_other (get key s.local_tombstones) version
      then s
      else record s { local_tombstones = put_back key previous s.local_tombstones }

  -- The loop of `restore_local_tombstones`, which may raise after some of them.
  unfoldable pub restore_local_tombstones :
      (valid_key : String → Bool) → Dict String F → Exec MeshError (Mesh F) (Unit {0})
  restore_local_tombstones valid_key [] s = (ok tt, s)
  restore_local_tombstones valid_key ((key, version) ∷ stored) s =
      let skipped = restore_local_tombstones valid_key stored s in
      let known = get key s.local_tombstones in
      let restored = restore_local_tombstones valid_key stored (record s {
        local_tombstones = put key (fmax f version (or_zero known)) s.local_tombstones;
      }) in
      if not (valid_key key) || bad_version version
      then skipped
      else if is_missing known && leb s.max_local_tombstones (length s.local_tombstones)
      then (err tombstones_full, s)
      else restored
