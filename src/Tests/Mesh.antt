-- ===== src/Tests/Mesh.antt =====
-- Runs of the theorems about the mesh.
use sketchlog.Prelude.{Option}
use sketchlog.Prelude.Dict.{Dict}
use sketchlog.Cluster.Members.Merge.{merge_membership-Merges}
use sketchlog.Cluster.Members.Grow.{IsMembers, Merges}
use sketchlog.Cluster.Members.{Members, Entry, alive, suspect, dead, merge_membership}
use sketchlog.Prelude.{
  ℕ, ◌≤◌, String, ◌≡◌, refl, true, false, none, some, [], ◌∷◌, replicate, inr, length, arith,
}
use sketchlog.Prelude.Int.{ℤ, pos}
use sketchlog.Prelude.Key.{string_key}
use sketchlog.Prelude.Dict.{get, get_or, contains}
use sketchlog.Prelude.Exec.{ok, err}
use sketchlog.Tests.Whole.{whole}
use sketchlog.Log.{StreamLog}
use sketchlog.Cluster.{
  Mesh, Update, known_version, receive_update, begin_deletion, rollback_deletion, tombstones_full,
}
use sketchlog.Cluster.Receive.{view, IsMesh, Others}
use sketchlog.Cluster.Register.{told, IsWelcome, receive_update_lem}
use sketchlog.Cluster.Deletion.{reserved, is_full, begin_deletion_lem}

abbrev empty_log : StreamLog ℤ
empty_log = record {
  latency = record {
    alpha = pos 0;
    gamma = pos 1;
    multiplier = pos 1;
    positive = [];
    negative = [];
    zero_count = 0;
    count = 0;
    min = pos 0;
    max = pos 0;
  };
  events = record { width = 1; depth = 0; table = []; total = 0; seeds = [] };
  uniques = record { p = 4; registers = replicate 16 0 };
  total = 0;
}

abbrev mesh : Mesh ℤ
mesh = record {
  node_id = "n1";
  max_local_tombstones = 2;
  peer_snapshots = ("prod/api", ("n2", record { log = empty_log; version = pos 4 }) ∷ []) ∷ [];
  peer_tombstones = [];
  local_tombstones = ("prod/old", pos 3) ∷ [];
}

mesh-IsMesh : IsMesh whole mesh
unfolding contains get get_or
mesh-IsMesh = (((refl, tt), ((refl, tt), tt)), (tt, tt), λ stream nid. inr refl)

abbrev deleted : Update ℤ
deleted = record { given_version = some (pos 5); is_tombstone = true; state = none }

abbrev two : String → ℕ
two s = 2

receive_update_example :
    let s' = receive_update whole two (pos 9) "prod/api" "n2" deleted mesh in
    IsMesh whole s'
    × Others whole "prod/api" "n2" mesh s'
    × (whole.le (pos 5) (known_version whole "prod/api" "n2" mesh) ≡ true → s' ≡ mesh)
    × (whole.le (pos 5) (known_version whole "prod/api" "n2" mesh) ≡ false
        → IsWelcome whole two (pos 5) "prod/api" "n2" deleted mesh
        → view whole "prod/api" "n2" s' ≡ told whole deleted (pos 5))
receive_update_example =
    receive_update_lem whole two (pos 9) "prod/api" "n2" deleted mesh mesh-IsMesh

begin_deletion_example :
    let (r, s') = begin_deletion whole "prod/api" (pos 7) mesh in
    (is_full whole "prod/api" mesh ≡ true → (r ≡ err tombstones_full) × (s' ≡ mesh))
    × (is_full whole "prod/api" mesh ≡ false
        → (r ≡ ok (reserved whole "prod/api" (pos 7) mesh, get "prod/api" mesh.local_tombstones))
          × (get "prod/api" s'.local_tombstones ≡ some (reserved whole "prod/api" (pos 7) mesh))
          × (length s'.local_tombstones ≤ 2)
          × (whole.eq
                  (reserved whole "prod/api" (pos 7) mesh)
                  (reserved whole "prod/api" (pos 7) mesh)
                ≡ true
              → rollback_deletion whole "prod/api"
                  (reserved whole "prod/api" (pos 7) mesh)
                  (get "prod/api" mesh.local_tombstones)
                  s'
                ≡ mesh))
begin_deletion_example = begin_deletion_lem whole "prod/api" (pos 7) mesh (omega arith)

abbrev members : Members ℤ
members = record {
  node_id = "n1";
  incarnation = 4;
  members =
      ("n1", record { address = ""; status = alive; incarnation = 4; last_updated = pos 1 })
      ∷ ("n2", record { address = ""; status = alive; incarnation = 2; last_updated = pos 1 })
      ∷ [];
}

-- The node itself is called dead, and the other one suspect.
abbrev gossip : Dict String Entry
gossip =
    ("n1", record { address = ""; status = some dead; incarnation = pos 6 })
    ∷ ("n2", record { address = ""; status = some suspect; incarnation = pos 2 })
    ∷ []

abbrev refuse_all : String → Option String
refuse_all address = none

members-IsMembers : IsMembers members
unfolding get
members-IsMembers = (
  (
    record { address = ""; status = alive; incarnation = 4; last_updated = pos 1 },
    refl,
    refl,
    refl,
  ),
  omega arith,
)

merge_membership_example : Merges members (merge_membership (pos 9) two refuse_all gossip members)
merge_membership_example =
    merge_membership-Merges (pos 9) two refuse_all gossip members members-IsMembers
