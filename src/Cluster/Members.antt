-- ===== src/Cluster/Members.antt =====
-- cluster.py: the membership of a node and `_merge_membership`. An entry of a message has its
-- declared types: `none` for a status that is none of the three. `validate` is
-- `_validate_peer_address`, which parses a URL (`none` if it raises), `size` is `len` of a `str`.
pub mod Grow
pub mod Merge
use sketchlog.Prelude.{
  ℕ, suc, ◌+◌, String, ◌≡◌, Bool, true, false, not, ◌&&◌, ◌||◌, Option, none, some, List, [], ◌∷◌,
  length, if◌then◌else◌, ltb, leb, ◌==◌ as nat_eq,
}
use sketchlog.Prelude.Int.{ℤ, pos, negsuc}
use sketchlog.Prelude.Key.{string_key, ◌==◌}
use sketchlog.Prelude.Dict.{Dict, get, put}
use sketchlog.Cluster.{max_identifier}

-- MAX_MEMBERS
abbrev pub max_members : ℕ
max_members = 256

pub data Status : Type 0 where
  alive suspect dead : Status

pub record Member (F : Type 0) : Type 0 where
  pub address : String
  pub status : Status
  pub incarnation : ℕ
  pub last_updated : F

pub record Entry : Type 0 where
  pub address : String
  pub status : Option Status
  pub incarnation : ℤ

pub record Members (F : Type 0) : Type 0 where
  pub node_id : String
  pub incarnation : ℕ
  pub members : Dict String (Member F)

-- `status in ("suspect", "dead")`
abbrev pub is_bad : Status → Bool
is_bad alive = false
is_bad _ = true

module _ {F : Type 0} (now : F) where
  -- Someone says that this node is suspect or dead: it refutes with a higher incarnation.
  abbrev pub refute_with : ℕ → Option (Member F) → Members F → Members F
  refute_with k none s = s
  refute_with k (some own) s = record s {
    incarnation = k;
    members = put s.node_id (record own { incarnation = k; last_updated = now }) s.members;
  }

  unfoldable pub refute : Status → ℕ → Members F → Members F
  refute status k s =
      if is_bad status && leb s.incarnation k
      then refute_with (k + 1) (get s.node_id s.members) s
      else s

  -- An entry about another node, once its address has been accepted.
  abbrev pub update_known : String → Member F → Member F → Members F → Members F
  update_known nid info known s =
      if ltb known.incarnation info.incarnation
      then record s { members = put nid info s.members }
      else if nat_eq info.incarnation known.incarnation
          && (not (is_bad known.status) && is_bad info.status)
      then record s {
        members = put nid (record known { status = info.status; last_updated = now }) s.members;
      }
      else s

  abbrev pub update_other : String → Member F → Option (Member F) → Members F → Members F
  update_other nid info none s =
      if leb max_members (length s.members)
      then s
      else record s { members = put nid info s.members }
  update_other nid info (some known) s = update_known nid info known s

  abbrev pub accept : String → Status → ℕ → Option String → Members F → Members F
  accept nid status k none s = s
  accept nid status k (some address) s =
      update_other nid
        (record { address = address; status = status; incarnation = k; last_updated = now })
        (get nid s.members) s

  abbrev pub accepted_address : (String → Option String) → String → Option String
  accepted_address validate address = if address == "" then some address else validate address

  abbrev pub merge_valid :
      (String → Option String) → String → Entry → Option Status → ℤ → Members F → Members F
  merge_valid validate nid e none k s = s
  merge_valid validate nid e (some status) (negsuc k) s = s
  merge_valid validate nid e (some status) (pos k) s =
      if nid == s.node_id
      then refute status k s
      else accept nid status k (accepted_address validate e.address) s

  -- The body of the loop of `_merge_membership`.
  unfoldable pub merge_member :
      (String → ℕ) → (String → Option String) → String → Entry → Members F → Members F
  merge_member size validate nid e s =
      if nat_eq (size nid) 0 || ltb max_identifier (size nid)
      then s
      else merge_valid validate nid e e.status e.incarnation s

  -- `_merge_membership`
  unfoldable pub merge_membership :
      (String → ℕ) → (String → Option String) → Dict String Entry → Members F → Members F
  merge_membership size validate [] s = s
  merge_membership size validate ((nid, e) ∷ incoming) s =
      merge_membership size validate incoming (merge_member size validate nid e s)
