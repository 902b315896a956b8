-- ===== src/Cluster/Deletion.antt =====
-- The reservation of a tombstone and its rollback.
use sketchlog.Prelude.{
  ℕ, ◌≤◌, String, ◌≡◌, refl, ap, inl, inr, Bool, true, false, ◌&&◌, Option, none, some, [], ◌∷◌,
  leb, length, Bool-cases, arith,
}
use sketchlog.Prelude.Key.{string_key, ◌==◌}
use sketchlog.Prelude.Dict.{Dict, get, put, pop, contains, get-put_self, length-put, contains-get}
use sketchlog.Prelude.Exec.{ok, err}
use sketchlog.Prelude.Float.{Float, fmax}
use sketchlog.Cluster.{
  Mesh, tombstones_full, or_zero, is_missing, begin_deletion, put_back, rollback_deletion,
}

module _ {V : Type 0} where
  pop-put_new : (k : String) (v : V) (d : Dict String V) → get k d ≡ none → pop k (put k v d) ≡ d
  unfolding get put pop
  pop-put_new k v [] h = ground (arith, string_key.beq_iff k k)
  pop-put_new k v ((j, w) ∷ d) h = elim (Bool-cases (j == k)) [
    | inl same ↦ absurd (ground (arith, h, same))
    | inr other ↦ rw (other, other, pop-put_new k v d (rw other at h)) refl
  ]

  put-put_old :
      (k : String) (v w : V) (d : Dict String V) → get k d ≡ some w → put k w (put k v d) ≡ d
  unfolding get put
  put-put_old k v w [] h = cc
  put-put_old k v w ((j, x) ∷ d) h = elim (Bool-cases (j == k)) [
    | inl same ↦ let e : x ≡ w = ground arith in rw (same, same, e) refl
    | inr other ↦ rw (other, other, put-put_old k v w d (rw other at h)) refl
  ]

  missing_of_get : (k : String) (d : Dict String V) → get k d ≡ none → contains k d ≡ false
  missing_of_get k d h = ground (arith, contains-get k d, h)

  found_of_get : (k : String) (v : V) (d : Dict String V) → get k d ≡ some v → contains k d ≡ true
  found_of_get k v d h = ground (arith, contains-get k d, h)

module _ (f : Float) where
  open f use {F, add, eq, lt, millionth}

  -- Storing what was there before undoes a change.
  put_back-put :
      (k : String) (v : F) (old : Option F) (d : Dict String F)
      → get k d ≡ old
      → put_back f k old (put k v d) ≡ d
  put_back-put k v none d h = pop-put_new k v d h
  put_back-put k v (some w) d h = put-put_old k v w d h

  -- The version that a deletion at a time would get.
  abbrev pub reserved : String → F → Mesh F → F
  reserved key now s = fmax f now (add (or_zero f (get key s.local_tombstones)) millionth)

  abbrev pub is_full : String → Mesh F → Bool
  is_full key s =
      is_missing f (get key s.local_tombstones)
      && leb s.max_local_tombstones (length s.local_tombstones)

  bounded :
      (key : String) (v : F) (old : Option F) (d : Dict String F) (limit : ℕ)
      → get key d ≡ old
      → length d ≤ limit
      → (is_missing f old && leb limit (length d)) ≡ false
      → length (put key v d) ≤ limit
  bounded key v none d limit h fits room =
      let new = missing_of_get key d h in ground (arith, length-put key v d, new)
  bounded key v (some w) d limit h fits room =
      let old = found_of_get key w d h in ground (arith, length-put key v d, old)

  -- On a node with no more tombstones than are allowed: a deletion of a new key raises, and changes
  -- nothing, when there are as many tombstones as are allowed. Any other one stores the version
  -- that it returns and stays within the limit, and its rollback restores the tombstones as they
  -- were, if that version is not NaN.
  pub begin_deletion_lem :
      (key : String) (now : F) (s : Mesh F)
      → length s.local_tombstones ≤ s.max_local_tombstones
      → let (r, s') = begin_deletion f key now s in
        (is_full key s ≡ true → (r ≡ err tombstones_full) × (s' ≡ s))
        × (is_full key s ≡ false
            → (r ≡ ok (reserved key now s, get key s.local_tombstones))
              × (get key s'.local_tombstones ≡ some (reserved key now s))
              × (length s'.local_tombstones ≤ s.max_local_tombstones)
              × (eq (reserved key now s) (reserved key now s) ≡ true
                  → rollback_deletion f key (reserved key now s) (get key s.local_tombstones) s'
                    ≡ s))
  unfolding begin_deletion
  begin_deletion_lem key now s fits = (
    (λ full. rw full (refl, refl)),
    λ room. rw room (
      refl,
      get-put_self key (reserved key now s) s.local_tombstones,
      bounded key (reserved key now s) (get key s.local_tombstones) s.local_tombstones
          s.max_local_tombstones refl fits room,
      λ number. undone number,
    ),
  )
    where
      undone :
          eq (reserved key now s) (reserved key now s) ≡ true
          → rollback_deletion f key
              (reserved key now s)
              (get key s.local_tombstones)
              (record s { local_tombstones = put key (reserved key now s) s.local_tombstones })
            ≡ s
      undone number =
          unfold rollback_deletion in
          rw (get-put_self key (reserved key now s) s.local_tombstones, number)
            (ap (λ d. record s { local_tombstones = d })
              (put_back-put key (reserved key now s) (get key s.local_tombstones) s.local_tombstones
                refl))
