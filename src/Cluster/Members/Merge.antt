-- ===== src/Cluster/Members/Merge.antt =====
-- `_merge_membership` on every entry of a message.
use mathlib.Core.Path.{subst}
use sketchlog.Prelude.{
  ℕ, suc, ◌+◌, ◌≤◌, ◌<◌, String, ◌≡◌, refl, ap, sym, ◌∙◌, inl, inr, false, not, ◌&&◌, ◌||◌, Option,
  none, some, [], ◌∷◌, length, if◌then◌else◌, ltb, ltb→lt, leb, leb→le, Bool-cases, arith,
  ◌==◌ as nat_eq,
}
use sketchlog.Prelude.Int.{ℤ, pos, negsuc}
use sketchlog.Prelude.Key.{string_key, ◌==◌}
use sketchlog.Prelude.Dict.{Dict, get, put, contains, get-put_self, length-put}
use sketchlog.Cluster.{max_identifier}
use sketchlog.Cluster.Members.{
  Status, Member, Entry, Members, is_bad, max_members, refute_with, refute, update_known,
  update_other, accept, accepted_address, merge_valid, merge_member, merge_membership,
}
use sketchlog.Cluster.Members.Grow.{
  Grows-put, Grows-trans, IsMembers, Merges, Merges-refl, Merges-put, some_inj, length-put_old,
}

module _ {F : Type 0} (now : F) where
  refute_with-Merges :
      (k : ℕ) (s : Members F)
      → IsMembers s
      → s.incarnation ≤ k
      → Merges s (refute_with now k (get s.node_id s.members) s)
  refute_with-Merges k s ((own, found, fine, numbered), fits) higher = rw found (
    (
      (
        record own { incarnation = k; last_updated = now },
        get-put_self s.node_id (record own { incarnation = k; last_updated = now }) s.members,
        fine,
        refl,
      ),
      length_le (
          length-put_old s.node_id (record own { incarnation = k; last_updated = now }) own
            s.members found),
    ),
    refl,
    higher,
    Grows-put s.node_id (record own { incarnation = k; last_updated = now }) s.members
        (λ m f.
          let e = some_inj m own (sym f ∙ found) in
          no_higher m.incarnation own.incarnation (ap (λ x. x.incarnation) e) numbered),
  )
    where
      length_le : {a : ℕ} → a ≡ length s.members → a ≤ max_members
      length_le e = omega arith

      no_higher : (a b : ℕ) → a ≡ b → b ≡ s.incarnation → a ≤ k
      no_higher a b e g = omega arith

  refute-Merges :
      (status : Status) (k : ℕ) (s : Members F) → IsMembers s → Merges s (refute now status k s)
  unfolding refute
  refute-Merges status k s h = elim (Bool-cases (is_bad status && leb s.incarnation k)) [
    | inl lies ↦
        rw lies (refute_with-Merges (k + 1) s h (one_more (leb→le s.incarnation k (ground arith))))
    | inr fine ↦ rw fine (Merges-refl s h)
  ]
    where
      one_more : s.incarnation ≤ k → s.incarnation ≤ k + 1
      one_more h = omega arith

  update_known-Merges :
      (nid : String) (info known : Member F) (s : Members F)
      → IsMembers s
      → (nid == s.node_id) ≡ false
      → get nid s.members ≡ some known
      → Merges s (update_known now nid info known s)
  update_known-Merges nid info known s h other found =
      elim (Bool-cases (ltb known.incarnation info.incarnation)) [
        | inl newer ↦
            rw newer (stores info (lt_le (ltb→lt known.incarnation info.incarnation newer)))
        | inr older ↦
            rw older
              (elim (Bool-cases (
                nat_eq info.incarnation known.incarnation
                && (not (is_bad known.status) && is_bad info.status))) [
                  | inl worse ↦ rw worse (
                      stores (record known { status = info.status; last_updated = now })
                        (omega arith))
                  | inr same ↦ rw same (Merges-refl s h)
                ])
      ]
    where
      lt_le : {a b : ℕ} → a < b → a ≤ b
      lt_le h = omega arith

      below :
          (m v : Member F)
          → m ≡ known
          → known.incarnation ≤ v.incarnation
          → m.incarnation ≤ v.incarnation
      below m v e l = subst (λ x. x.incarnation ≤ v.incarnation) (sym e) l

      fits_still : {a : ℕ} → a ≡ length s.members → length s.members ≤ max_members → a ≤ max_members
      fits_still e l = omega arith

      stores :
          (v : Member F)
          → known.incarnation ≤ v.incarnation
          → Merges s (record s { members = put nid v s.members })
      stores v l =
          Merges-put nid v s h other (λ m f. below m v (some_inj m known (sym f ∙ found)) l)
            (fits_still (length-put_old nid v known s.members found) h.1)

  update_other-Merges :
      (nid : String) (info : Member F) (o : Option (Member F)) (s : Members F)
      → IsMembers s
      → (nid == s.node_id) ≡ false
      → get nid s.members ≡ o
      → Merges s (update_other now nid info o s)
  update_other-Merges nid info (some known) s h other found =
      update_known-Merges nid info known s h other found
  update_other-Merges nid info none s h other found =
      elim (Bool-cases (leb max_members (length s.members))) [
        | inl full ↦ rw full (Merges-refl s h)
        | inr room ↦ rw room (
            Merges-put nid info s h other (λ m f. absurd (none_some m (sym found ∙ f)))
              (one_more (put nid info s.members) (length-put nid info s.members) room))
      ]
    where
      none_some : (m : Member F) → none ≡ some m → ⊥
      none_some m e = cc e

      one_more :
          (d : Dict String (Member F))
          → length d ≡ (if contains nid s.members then length s.members else suc (length s.members))
          → leb max_members (length s.members) ≡ false
          → length d ≤ max_members
      one_more d e room = let fits = h.1 in ground arith

  accept-Merges :
      (nid : String) (status : Status) (k : ℕ) (o : Option String) (s : Members F)
      → IsMembers s
      → (nid == s.node_id) ≡ false
      → Merges s (accept now nid status k o s)
  accept-Merges nid status k none s h other = Merges-refl s h
  accept-Merges nid status k (some address) s h other =
      update_other-Merges nid
        (record { address = address; status = status; incarnation = k; last_updated = now })
        (get nid s.members) s h other refl

  merge_valid-Merges :
      (validate : String → Option String) (nid : String) (e : Entry) (o : Option Status) (k : ℤ)
      (s : Members F)
      → IsMembers s
      → Merges s (merge_valid now validate nid e o k s)
  merge_valid-Merges validate nid e none k s h = Merges-refl s h
  merge_valid-Merges validate nid e (some status) (negsuc k) s h = Merges-refl s h
  merge_valid-Merges validate nid e (some status) (pos k) s h =
      elim (Bool-cases (nid == s.node_id)) [
        | inl self ↦ rw self (refute-Merges status k s h)
        | inr other ↦
            rw other
              (accept-Merges nid status k (accepted_address now validate e.address) s h other)
      ]

  merge_member-Merges :
      (size : String → ℕ) (validate : String → Option String) (nid : String) (e : Entry)
      (s : Members F)
      → IsMembers s
      → Merges s (merge_member now size validate nid e s)
  unfolding merge_member
  merge_member-Merges size validate nid e s h =
      elim (Bool-cases (nat_eq (size nid) 0 || ltb max_identifier (size nid))) [
        | inl bad ↦ rw bad (Merges-refl s h)
        | inr good ↦ rw good (merge_valid-Merges validate nid e e.status e.incarnation s h)
      ]

  -- Whatever a message says, a node that is alive in its own eyes, with its own incarnation and at
  -- most 256 members, stays alive when it merges it: it still is so, no member is lost and no
  -- incarnation goes back, its own included, and there still are at most 256 members.
  pub merge_membership-Merges :
      (size : String → ℕ) (validate : String → Option String) (incoming : Dict String Entry)
      (s : Members F)
      → IsMembers s
      → Merges s (merge_membership now size validate incoming s)
  unfolding merge_membership
  merge_membership-Merges size validate [] s h = Merges-refl s h
  merge_membership-Merges size validate ((nid, e) ∷ incoming) s h =
      let (valid, named, higher, grown) = merge_member-Merges size validate nid e s h in
      let s' = merge_member now size validate nid e s in
      let (valid', named', higher', grown') =
        merge_membership-Merges size validate incoming s' valid in
      (
        valid',
        named' ∙ named,
        omega arith,
        Grows-trans s.members s'.members (merge_membership now size validate incoming s').members
            grown grown',
      )
