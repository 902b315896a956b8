-- ===== src/Prelude/Dict.antt =====
-- Python's `dict` as the list of its items in insertion order: an assignment to a key that is
-- there keeps its place, a new key goes to the end, and `pop` takes the item out.
use sketchlog.Prelude.{
  suc, ◌≡◌, ◌≢◌, refl, Bool, true, false, Option, none, some, List, [], ◌∷◌, arith, length,
  if◌then◌else◌, Bool-cases, inl, inr,
}
use sketchlog.Prelude.Key.{Key, ◌==◌, beq_refl}

abbrev pub Dict {ℓ κ} : Type ℓ → Type κ → Type (ℓ ⊔ κ)
Dict K V = List (K × V)

module _ {ℓ κ} {K : Type ℓ} {V : Type κ} where
  -- `d.values()` and `d.keys()`
  abbrev pub values : Dict K V → List V
  values [] = []
  values ((k, v) ∷ d) = v ∷ values d

  abbrev pub keys : Dict K V → List K
  keys [] = []
  keys ((k, v) ∷ d) = k ∷ keys d

module _ {ℓ κ} {K : Type ℓ} ⦃e : Key K⦄ {V : Type κ} where
  -- `d.get(k)`
  unfoldable pub get : K → Dict K V → Option V
  get k [] = none
  get k ((j, v) ∷ d) = if j == k then some v else get k d

  -- `d[k] = v`
  unfoldable pub put : K → V → Dict K V → Dict K V
  put k v [] = (k, v) ∷ []
  put k v ((j, w) ∷ d) = if j == k then (j, v) ∷ d else (j, w) ∷ put k v d

  -- `d.pop(k, None)`, for the keys of a dictionary are distinct
  unfoldable pub pop : K → Dict K V → Dict K V
  pop k [] = []
  pop k ((j, v) ∷ d) = let rest = pop k d in if j == k then d else (j, v) ∷ rest

  -- `k in d`
  unfoldable pub contains : K → Dict K V → Bool
  contains k [] = false
  contains k ((j, v) ∷ d) = if j == k then true else contains k d

  -- `d.get(k, default)`
  unfoldable pub get_or : K → V → Dict K V → V
  get_or k x [] = x
  get_or k x ((j, v) ∷ d) = if j == k then v else get_or k x d

  -- The keys of a dictionary are distinct.
  abbrev pub IsDict : Dict K V → Type 0
  IsDict [] = Unit
  IsDict ((k, v) ∷ d) = (contains k d ≡ false) × IsDict d

  pub get-put :
      (k j : K) (v : V) (d : Dict K V) → get j (put k v d) ≡ (if k == j then some v else get j d)
  unfolding get put
  get-put k j v [] = refl
  get-put k j v ((i, w) ∷ d) =
      ground (arith, e.beq_iff k j, e.beq_iff i k, e.beq_iff i j, get-put k j v d)

  pub get-put_self : (k : K) (v : V) (d : Dict K V) → get k (put k v d) ≡ some v
  get-put_self k v d = rw (get-put k k v d, beq_refl k)

  pub get-put_ne : (k j : K) (v : V) (d : Dict K V) → k ≢ j → get j (put k v d) ≡ get j d
  get-put_ne k j v d h = elim (Bool-cases (k == j)) [
    | inl same ↦ absurd (h ((e.beq_iff k j).0 same))
    | inr other ↦ rw (get-put k j v d, other)
  ]

  pub contains-put :
      (k j : K) (v : V) (d : Dict K V)
      → contains j (put k v d) ≡ (if k == j then true else contains j d)
  unfolding contains put
  contains-put k j v [] = refl
  contains-put k j v ((i, w) ∷ d) =
      ground (arith, e.beq_iff k j, e.beq_iff i k, e.beq_iff i j, contains-put k j v d)

  pub contains-get :
      (k : K) (d : Dict K V) → contains k d ≡ (elim (get k d) [ none ↦ false | some _ ↦ true ])
  unfolding contains get
  contains-get k [] = refl
  contains-get k ((i, w) ∷ d) = ground (arith, contains-get k d)

  pub get_or-get :
      (k : K) (x : V) (d : Dict K V) → get_or k x d ≡ (elim (get k d) [ none ↦ x | some v ↦ v ])
  unfolding get_or get
  get_or-get k x [] = refl
  get_or-get k x ((i, w) ∷ d) = ground (arith, get_or-get k x d)

  pub get_or-put :
      (k j : K) (v x : V) (d : Dict K V)
      → get_or j x (put k v d) ≡ (if k == j then v else get_or j x d)
  unfolding get_or put
  get_or-put k j v x [] = refl
  get_or-put k j v x ((i, w) ∷ d) =
      ground (arith, e.beq_iff k j, e.beq_iff i k, e.beq_iff i j, get_or-put k j v x d)

  pub put-IsDict : (k : K) (v : V) (d : Dict K V) → IsDict d → IsDict (put k v d)
  unfolding put contains
  put-IsDict k v [] h = (refl, tt)
  put-IsDict k v ((i, w) ∷ d) h = elim (Bool-cases (i == k)) [
    | inl same ↦ rw same h
    | inr other ↦
        rw other
          (ground (arith, contains-put k i v d, e.beq_iff k i, e.beq_iff i k), put-IsDict k v d h.1)
  ]

  -- A new key makes a dictionary one longer.
  pub length-put :
      (k : K) (v : V) (d : Dict K V)
      → length (put k v d) ≡ (if contains k d then length d else suc (length d))
  unfolding put contains
  length-put k v [] = refl
  length-put k v ((i, w) ∷ d) = ground (arith, length-put k v d)

  pub get-pop_self : (k : K) (d : Dict K V) → IsDict d → get k (pop k d) ≡ none
  unfolding get pop contains
  get-pop_self k [] h = refl
  get-pop_self k ((i, w) ∷ d) h =
      ground (arith, get-pop_self k d h.1, e.beq_iff i k, contains-get k d)

  pub get-pop_ne : (k j : K) (d : Dict K V) → k ≢ j → get j (pop k d) ≡ get j d
  unfolding get pop
  get-pop_ne k j [] h = refl
  get-pop_ne k j ((i, w) ∷ d) h = ground (arith, get-pop_ne k j d h, e.beq_iff i k, e.beq_iff i j)

  pub contains-pop-false :
      (k j : K) (d : Dict K V) → contains j d ≡ false → contains j (pop k d) ≡ false
  unfolding contains pop
  contains-pop-false k j [] h = refl
  contains-pop-false k j ((i, w) ∷ d) h = ground (arith, contains-pop-false k j d)

  pub pop-IsDict : (k : K) (d : Dict K V) → IsDict d → IsDict (pop k d)
  unfolding pop
  pop-IsDict k [] h = tt
  pop-IsDict k ((i, w) ∷ d) h = elim (Bool-cases (i == k)) [
    | inl same ↦ rw same h.1
    | inr other ↦ rw other (contains-pop-false k i d h.0, pop-IsDict k d h.1)
  ]
