-- ===== src/Cluster/Origins.antt =====
-- A dictionary of streams, each with a dictionary of its origins.
use sketchlog.Prelude.{
  ◌⊎◌, ℕ, suc, ◌+◌, String, ◌≡◌, ◌≢◌, refl, ap, sym, ◌∙◌, inl, inr, Bool, ◌||◌, Option, none, some,
  [], ◌∷◌, if◌then◌else◌, length, Bool-cases, arith,
}
use sketchlog.Prelude.Key.{string_key, ◌==◌}
use sketchlog.Prelude.Dict.{
  Dict, get, put, pop, contains, get_or, IsDict, get-put, get_or-get, get_or-put, get-pop_self,
  get-pop_ne, put-IsDict, pop-IsDict,
}

abbrev pub Table : Type 0 → Type 0
Table V = Dict String (Dict String V)

module _ {V : Type 0} where
  -- `table.get(stream, {})`
  abbrev pub row : String → Table V → Dict String V
  row stream t = get_or stream [] t

  -- `table.setdefault(stream, {})[nid] = v`
  unfoldable pub insert : String → String → V → Table V → Table V
  insert stream nid v t = put stream (put nid v (row stream t)) t

  abbrev pub drop_or_put : String → Dict String V → Table V → Table V
  drop_or_put stream [] t = pop stream t
  drop_or_put stream (x ∷ xs) t = put stream (x ∷ xs) t

  -- `origins.pop(nid, None)`, then `table.pop(stream, None)` if no origin is left.
  unfoldable pub remove : String → String → Table V → Table V
  remove stream nid t = drop_or_put stream (pop nid (row stream t)) t

  -- What the table holds of an origin of a stream.
  abbrev pub lookup : String → String → Table V → Option V
  lookup stream nid t = get nid (row stream t)

module _ {V W : Type 0} where
  -- `key in (one.keys() | two.keys())`
  unfoldable pub is_known : String → Dict String V → Dict String W → Bool
  is_known k one two = contains k one || contains k two

  -- `len(one.keys() | two.keys())`
  unfoldable pub count_new : Dict String V → Dict String W → ℕ
  count_new one [] = 0
  count_new one ((k, w) ∷ two) =
      let rest = count_new one two in if contains k one then rest else suc rest

  abbrev pub count_known : Dict String V → Dict String W → ℕ
  count_known one two = length one + count_new one two

module _ {V : Type 0} where
  abbrev pub Rows : Table V → Type 0
  Rows [] = Unit
  Rows ((k, r) ∷ t) = IsDict r × Rows t

  -- The keys are distinct, those of the streams and those of the origins of each.
  abbrev pub IsTable : Table V → Type 0
  IsTable t = IsDict t × Rows t

  IsDict-row : (s : String) (t : Table V) → Rows t → IsDict (row s t)
  unfolding get_or
  IsDict-row s [] h = tt
  IsDict-row s ((k, r) ∷ t) h = elim (Bool-cases (k == s)) [
    | inl same ↦ rw same h.0
    | inr other ↦ rw other (IsDict-row s t h.1)
  ]

  Rows-put : (s : String) (r : Dict String V) (t : Table V) → IsDict r → Rows t → Rows (put s r t)
  unfolding put
  Rows-put s r [] h k = (h, tt)
  Rows-put s r ((j, q) ∷ t) h k = elim (Bool-cases (j == s)) [
    | inl same ↦ rw same (h, k.1)
    | inr other ↦ rw other (k.0, Rows-put s r t h k.1)
  ]

  Rows-pop : (s : String) (t : Table V) → Rows t → Rows (pop s t)
  unfolding pop
  Rows-pop s [] h = tt
  Rows-pop s ((j, q) ∷ t) h = elim (Bool-cases (j == s)) [
    | inl same ↦ rw same h.1
    | inr other ↦ rw other (h.0, Rows-pop s t h.1)
  ]

  pub IsTable-insert : (s n : String) (v : V) (t : Table V) → IsTable t → IsTable (insert s n v t)
  unfolding insert
  IsTable-insert s n v t (distinct, rows) = (
    put-IsDict s (put n v (row s t)) t distinct,
    Rows-put s (put n v (row s t)) t (put-IsDict n v (row s t) (IsDict-row s t rows)) rows,
  )

  IsTable-drop_or_put :
      (s : String) (r : Dict String V) (t : Table V)
      → IsDict r
      → IsTable t
      → IsTable (drop_or_put s r t)
  IsTable-drop_or_put s [] t h (distinct, rows) = (pop-IsDict s t distinct, Rows-pop s t rows)
  IsTable-drop_or_put s (x ∷ xs) t h (distinct, rows) =
      (put-IsDict s (x ∷ xs) t distinct, Rows-put s (x ∷ xs) t h rows)

  pub IsTable-remove : (s n : String) (t : Table V) → IsTable t → IsTable (remove s n t)
  unfolding remove
  IsTable-remove s n t h =
      IsTable-drop_or_put s (pop n (row s t)) t (pop-IsDict n (row s t) (IsDict-row s t h.1)) h

  row-put :
      (s j : String) (r : Dict String V) (t : Table V)
      → row j (put s r t) ≡ (if s == j then r else row j t)
  row-put s j r t = get_or-put s j r [] t

  row_of_get : (j : String) (t t' : Table V) → get j t ≡ get j t' → row j t ≡ row j t'
  row_of_get j t t' e =
      get_or-get j [] t ∙ ap (λ o. elim o [ none ↦ [] | some v ↦ v ]) e ∙ sym (get_or-get j [] t')

  row-pop_self : (s : String) (t : Table V) → IsDict t → row s (pop s t) ≡ []
  row-pop_self s t h =
      get_or-get s [] (pop s t) ∙ ap (λ o. elim o [ none ↦ [] | some v ↦ v ]) (get-pop_self s t h)

  row-drop_or_put :
      (s j : String) (r : Dict String V) (t : Table V)
      → IsDict t
      → row j (drop_or_put s r t) ≡ (if s == j then r else row j t)
  row-drop_or_put s j [] t h = elim (Bool-cases (s == j)) [
    | inl same ↦
        let e : s ≡ j = (string_key.beq_iff s j).0 same in
        rw same (ap (λ i. row i (pop s t)) (sym e) ∙ row-pop_self s t h)
    | inr other ↦ rw other (
        row_of_get j (pop s t) t
          (get-pop_ne s j t (λ e. let b = (string_key.beq_iff s j).1 e in absurd (ground arith))))
  ]
  row-drop_or_put s j (x ∷ xs) t h = row-put s j (x ∷ xs) t

  pub lookup-insert :
      (s n j m : String) (v : V) (t : Table V)
      → lookup j m (insert s n v t)
        ≡ (if s == j then (if n == m then some v else lookup j m t) else lookup j m t)
  unfolding insert
  lookup-insert s n j m v t = elim (Bool-cases (s == j)) [
    | inl same ↦
        let e : s ≡ j = (string_key.beq_iff s j).0 same in
        rw (row-put s j (put n v (row s t)) t, same)
          (get-put n m v (row s t) ∙ ap (λ i. if n == m then some v else lookup i m t) e)
    | inr other ↦ rw (row-put s j (put n v (row s t)) t, other) refl
  ]

  pub lookup-remove_self :
      (s n : String) (t : Table V) → IsTable t → lookup s n (remove s n t) ≡ none
  unfolding remove
  lookup-remove_self s n t (distinct, rows) =
      let same = (string_key.beq_iff s s).1 refl in
      rw (row-drop_or_put s s (pop n (row s t)) t distinct, same)
        (get-pop_self n (row s t) (IsDict-row s t rows))

  pub lookup-remove_ne :
      (s n j m : String) (t : Table V)
      → IsTable t
      → (s ≢ j) ⊎ (n ≢ m)
      → lookup j m (remove s n t) ≡ lookup j m t
  unfolding remove
  lookup-remove_ne s n j m t (distinct, rows) ne = elim (Bool-cases (s == j)) [
    | inl same ↦
        let e : s ≡ j = (string_key.beq_iff s j).0 same in
        let n_m : n ≢ m = elim ne [ inl apart ↦ absurd (apart e) | inr apart ↦ apart ] in
        rw (row-drop_or_put s j (pop n (row s t)) t distinct, same)
          (get-pop_ne n m (row s t) n_m ∙ ap (λ i. lookup i m t) e)
    | inr other ↦ rw (row-drop_or_put s j (pop n (row s t)) t distinct, other) refl
  ]
