-- ===== src/Cluster/Members/Grow.antt =====
-- A merge of members takes no incarnation back and keeps the node itself alive.
use sketchlog.Prelude.{
  ◌≤◌, String, ◌≡◌, refl, ap, ◌∙◌, inl, inr, true, false, some, length, Bool-cases, arith,
}
use sketchlog.Prelude.Key.{string_key, ◌==◌}
use sketchlog.Prelude.Dict.{Dict, get, put, contains, get-put, length-put, contains-get}
use sketchlog.Cluster.Members.{alive, Member, Members, max_members}

module _ {F : Type 0} where
  -- Every member is still there, with an incarnation that is no lower.
  abbrev pub Grows : Dict String (Member F) → Dict String (Member F) → Type 0
  Grows d d' =
      (j : String) (m : Member F)
      → get j d ≡ some m
      → (m' : Member F) × (get j d' ≡ some m') × (m.incarnation ≤ m'.incarnation)

  pub Grows-put :
      (k : String) (v : Member F) (d : Dict String (Member F))
      → ((m : Member F) → get k d ≡ some m → m.incarnation ≤ v.incarnation)
      → Grows d (put k v d)
  Grows-put k v d h j m found = elim (Bool-cases (k == j)) [
    | inl same ↦
        let e : k ≡ j = (string_key.beq_iff k j).0 same in
        (v, get-put k j v d ∙ rw same refl, h m (ap (λ i. get i d) e ∙ found))
    | inr other ↦ (m, get-put k j v d ∙ rw other found, omega arith)
  ]

  Grows-refl : (d : Dict String (Member F)) → Grows d d
  Grows-refl d j m found = (m, found, omega arith)

  pub Grows-trans : (a b c : Dict String (Member F)) → Grows a b → Grows b c → Grows a c
  Grows-trans a b c h k j m found =
      let (m₁, f₁, l₁) = h j m found in let (m₂, f₂, l₂) = k j m₁ f₁ in (m₂, f₂, omega arith)

  -- The node knows itself as alive, with its own incarnation, and has no more members than allowed.
  abbrev pub IsSelf : Members F → Type 0
  IsSelf s =
      (own : Member F) × (get s.node_id s.members ≡ some own)
      × (own.status ≡ alive)
      × (own.incarnation ≡ s.incarnation)

  abbrev pub IsMembers : Members F → Type 0
  IsMembers s = IsSelf s × (length s.members ≤ max_members)

  -- What a merge makes of the members.
  abbrev pub Merges : Members F → Members F → Type 0
  Merges s s' =
      IsMembers s'
      × (s'.node_id ≡ s.node_id)
      × (s.incarnation ≤ s'.incarnation)
      × Grows s.members s'.members

  pub Merges-refl : (s : Members F) → IsMembers s → Merges s s
  Merges-refl s h = (h, refl, omega arith, Grows-refl s.members)

  pub some_inj : (a b : Member F) → some a ≡ some b → a ≡ b
  some_inj a b h = cc

  pub length-put_old :
      (k : String) (v old : Member F) (d : Dict String (Member F))
      → get k d ≡ some old
      → length (put k v d) ≡ length d
  length-put_old k v old d h =
      let there : contains k d ≡ true = ground (arith, contains-get k d, h) in
      ground (arith, length-put k v d, there)

  -- An entry of another node replaces or adds one member.
  pub Merges-put :
      (nid : String) (v : Member F) (s : Members F)
      → IsMembers s
      → (nid == s.node_id) ≡ false
      → ((m : Member F) → get nid s.members ≡ some m → m.incarnation ≤ v.incarnation)
      → length (put nid v s.members) ≤ max_members
      → Merges s (record s { members = put nid v s.members })
  Merges-put nid v s ((own, found, fine, numbered), _) other h fits = (
    ((own, get-put nid s.node_id v s.members ∙ rw other found, fine, numbered), fits),
    refl,
    omega arith,
    Grows-put nid v s.members h,
  )
