-- ===== src/Sketch/Ddsketch/Batched.antt =====
-- `add_batch` and the values that a sketch summarises: the temporary buckets are a sketch of the
-- finite values of the batch, and committing them joins the two.
use mathlib.Core.List.{append-nil, append_assoc}
use mathlib.Core.Path.{subst}
use sketchlog.Prelude.{
  sym, ap, ◌+◌, ◌≡◌, refl, ◌∙◌, ◌⊎◌, inl, inr, false, ◌||◌, List, [], ◌∷◌, ◌++◌, arith, ltb, ◌==◌,
  if◌then◌else◌, Bool-cases,
}
use sketchlog.Prelude.Int.{ℤ}
use sketchlog.Prelude.Key.{int_key}
use sketchlog.Prelude.Key.{◌==◌ as ◌=k=◌}
use sketchlog.Prelude.Dict
use sketchlog.Prelude.Dict.{IsDict}
use sketchlog.Prelude.Exec.{
  Result, ok, err, bind, Ensures, Ensures-bind, Ensures-unless, Ensures-refuse_if,
}
use sketchlog.Prelude.Float.{Float, FloatKeys}
use sketchlog.Sketch.Bins.{Bins, bump, bump_all, get_or-bump, bump-IsDict}
use sketchlog.Sketch.Ddsketch.{
  Dd, DdError, fresh, key, commit, is_inaccurate, too_small, max_bins, bins_full, count_overflow,
  zero_overflow, bin_overflow,
}
use sketchlog.Sketch.Count.{max_int64, max_uint64}
use sketchlog.Sketch.Ddsketch.Batch.{
  Batch, empty_batch, take_value, gather, commit_batch, check_batch, close_batch, finish_batch,
  add_batch, see, put_value, union_size, any_over,
}
use sketchlog.Sketch.Ddsketch.Summary.{
  is_inaccurate-same, Stream, IsSummary, fresh-IsSummary, key-same, no_weight,
}
use sketchlog.Sketch.Ddsketch.Joins.{Joins-IsSummary, commit-IsSummary}

pub get_or-absent : (k : ℤ) (d : Bins) → Dict.contains k d ≡ false → Dict.get_or k 0 d ≡ 0
unfolding Dict.contains Dict.get_or
get_or-absent k [] h = refl
get_or-absent k ((j, n) ∷ d) h = ground (arith, get_or-absent k d)

-- The counts of two stores are added bucket by bucket.
pub get_or-bump_all :
    (k : ℤ) (tmp store : Bins)
    → IsDict tmp
    → Dict.get_or k 0 (bump_all tmp store) ≡ Dict.get_or k 0 store + Dict.get_or k 0 tmp
unfolding bump_all
get_or-bump_all k [] store d = unfold Dict.get_or in omega arith
get_or-bump_all k ((j, n) ∷ tmp) store d = elim (Bool-cases (j =k= k)) [
  | inl same ↦
      let gone = get_or-absent j tmp d.0 in
      let e = (int_key.beq_iff j k).0 same in
      rw (get_or-bump_all k tmp (bump j n store) d.1, get_or-bump j k n store, same)
        (unfold Dict.get_or in rw same (rw (← e) (omega (arith, gone))))
  | inr other ↦
      rw (get_or-bump_all k tmp (bump j n store) d.1, get_or-bump j k n store, other)
        (unfold Dict.get_or in rw other refl)
]

module _ (f : Float) where
  open f use {F, of_nat, lt, eq, neg, abs, is_nan, is_inf}

  -- The values that are neither NaN nor infinite, each once.
  abbrev pub finite_values : List F → Stream F
  finite_values [] = []
  finite_values (v ∷ values) =
      let rest = finite_values values in if is_nan v || is_inf v then rest else (v, 1) ∷ rest

  -- The temporary buckets as a sketch.
  abbrev as_sketch : F → Batch F → Dd F
  as_sketch accuracy b = record (fresh f accuracy) {
    positive = b.tmp_pos;
    negative = b.tmp_neg;
    zero_count = b.tmp_zeros;
    count = b.tmp_count;
    min = b.tmp_min;
    max = b.tmp_max;
  }

  abbrev IsGathered : F → Stream F → Batch F → Type 0
  IsGathered accuracy xs b =
      IsDict b.tmp_pos × IsDict b.tmp_neg × IsSummary f accuracy (as_sketch accuracy b) xs

  module _ (laws : FloatKeys f) (accuracy : F) (s : Dd F)
      (same : (x : F) → key f s x ≡ key f (fresh f accuracy) x)
      (alike : (x : F) → is_inaccurate f s x ≡ is_inaccurate f (fresh f accuracy) x) where
    counted-IsGathered :
        (v : F) (b : Batch F) (xs : Stream F)
        → is_nan v ≡ false
        → is_inf v ≡ false
        → eq v (of_nat 0) ≡ false
        → is_inaccurate f s (abs v) ≡ false
        → IsGathered accuracy xs b
        → IsGathered accuracy (xs ++ (v, 1) ∷ []) (see f v (put_value f (key f s (abs v)) v b))
    counted-IsGathered v b xs real bounded nonzero accurate h =
        let next =
          commit-IsSummary f laws accuracy v 1 (as_sketch accuracy b) xs
            (real, bounded, omega arith) (λ _. rw (← alike (abs v)) accurate) h.2 in
        elim (Bool-cases (lt (of_nat 0) v)) [
          | inl up ↦
              let at : key f s (abs v) ≡ key f (as_sketch accuracy b) v =
                rw (laws.order.abs_pos v up, same v) (unfold key in refl) in
              rw (up, at) (bump-IsDict _ 1 b.tmp_pos h.0, h.1, unfold commit in rw up at next)
          | inr not_up ↦
              let down =
                laws.order.lt_of_ne v (of_nat 0) real (laws.order.of_nat-not_nan 0) nonzero
                  not_up in
              let at : key f s (abs v) ≡ key f (as_sketch accuracy b) (neg v) =
                rw (laws.order.abs_neg v down, same (neg v)) (unfold key in refl) in
              rw (not_up, at)
                (h.0, bump-IsDict _ 1 b.tmp_neg h.1, unfold commit in rw (not_up, down) at next)
        ]

    take_value-IsGathered :
        (v : F) (b : Batch F) (xs : Stream F)
        → IsGathered accuracy xs b
        → Ensures (IsGathered accuracy (xs ++ finite_values (v ∷ []))) (take_value f s v b)
    unfolding take_value
    take_value-IsGathered v b xs h = elim (Bool-cases (is_nan v || is_inf v)) [
      | inl special ↦ rw (special, append-nil) h
      | inr finite ↦
          let real : is_nan v ≡ false = ground arith in
          let bounded : is_inf v ≡ false = ground arith in
          elim (Bool-cases (eq v (of_nat 0))) [
            | inl is_zero ↦
                let (not_up, not_down) = laws.order.eq_not_lt v (of_nat 0) is_zero in
                let next =
                  commit-IsSummary f laws accuracy v 1 (as_sketch accuracy b) xs
                    (real, bounded, omega arith) (λ nonzero. cc (is_zero, nonzero)) h.2 in
                rw (finite, is_zero) (h.0, h.1, unfold commit in rw (not_up, not_down) at next)
            | inr nonzero ↦
                rw (finite, nonzero)
                  (Ensures-refuse_if (IsGathered accuracy (xs ++ (v, 1) ∷ []))
                    (is_inaccurate f s (abs v)) too_small _
                    λ accurate. counted-IsGathered v b xs real bounded nonzero accurate h)
          ]
    ]

    gather-IsGathered :
        (values : List F) (b : Batch F) (xs : Stream F)
        → IsGathered accuracy xs b
        → Ensures (IsGathered accuracy (xs ++ finite_values values)) (gather f s values b)
    unfolding gather
    gather-IsGathered [] b xs h = rw append-nil h
    gather-IsGathered (v ∷ values) b xs h =
        Ensures-bind (IsGathered accuracy (xs ++ finite_values (v ∷ [])))
          (IsGathered accuracy (xs ++ finite_values (v ∷ values))) (take_value f s v b)
          (gather f s values) (take_value-IsGathered v b xs h)
          λ b' g.
            subst (λ ys. Ensures (IsGathered accuracy ys) (gather f s values b')) regroup
              (gather-IsGathered values b' (xs ++ finite_values (v ∷ [])) g)
      where
        split : finite_values (v ∷ values) ≡ finite_values (v ∷ []) ++ finite_values values
        split = ground arith

        regroup :
            (xs ++ finite_values (v ∷ [])) ++ finite_values values
            ≡ xs ++ finite_values (v ∷ values)
        regroup =
            append_assoc xs (finite_values (v ∷ [])) (finite_values values)
            ∙ ap (λ r. xs ++ r) (sym split)

  module _ (laws : FloatKeys f) (accuracy : F) (s : Dd F) (xs : Stream F)
      (h : IsSummary f accuracy s xs) where
    commit_batch-IsSummary :
        (b : Batch F) (ys : Stream F)
        → IsGathered accuracy ys b
        → IsSummary f accuracy (commit_batch f b s) (xs ++ ys)
    unfolding commit_batch
    commit_batch-IsSummary b ys g =
        Joins-IsSummary f laws accuracy s (as_sketch accuracy b) _ xs ys
          (record {
            alpha = refl;
            gamma = refl;
            multiplier = refl;
            positive = λ k. get_or-bump_all k b.tmp_pos s.positive g.0;
            negative = λ k. get_or-bump_all k b.tmp_neg s.negative g.1;
            zeros = refl;
            count = refl;
            min = refl;
            max = refl;
          })
          h g.2

    close_batch-IsSummary :
        (b : Batch F) (ys : Stream F)
        → IsGathered accuracy ys b
        → Ensures (λ s'. IsSummary f accuracy s' (xs ++ ys)) (close_batch f s b)
    unfolding close_batch check_batch
    close_batch-IsSummary b ys g = elim (Bool-cases (b.tmp_count == 0)) [
      | inl empty ↦
          let none_of = no_weight f ys g.2.finite (ground (arith, g.2.counted)) in
          rw (empty, none_of, append-nil) h
      | inr used ↦
          let P : Dd F → Type 0 = λ s'. IsSummary f accuracy s' (xs ++ ys) in
          rw used (
            Ensures-unless P (ltb max_bins (union_size s.positive b.tmp_pos)) bins_full _ (
              Ensures-unless P (ltb max_bins (union_size s.negative b.tmp_neg)) bins_full _ (
                Ensures-unless P (ltb max_uint64 (s.count + b.tmp_count)) count_overflow _ (
                  Ensures-unless P (ltb max_int64 (s.zero_count + b.tmp_zeros)) zero_overflow _ (
                    Ensures-unless P (any_over s.positive b.tmp_pos) bin_overflow _ (
                      Ensures-unless P (any_over s.negative b.tmp_neg) bin_overflow
                        (ok (commit_batch f b s)) (commit_batch-IsSummary b ys g)))))))
    ]

    -- `add_batch` of any values leaves the sketch as it was and raises, or returns, and the sketch
    -- then summarises the values that it had and those of the batch that are neither NaN nor
    -- infinite.
    pub add_batch-IsSummary :
        (values : List F)
        → ((e : DdError) × (add_batch f values s ≡ (err e, s)))
          ⊎ (((add_batch f values s).0 ≡ ok tt)
              × IsSummary f accuracy (add_batch f values s).1 (xs ++ finite_values values))
    unfolding add_batch
    add_batch-IsSummary values = go (bind (gather f s values (empty_batch f)) (close_batch f s)) (
        Ensures-bind (IsGathered accuracy (finite_values values))
          (λ s'. IsSummary f accuracy s' (xs ++ finite_values values))
          (gather f s values (empty_batch f)) (close_batch f s)
          (gather-IsGathered laws accuracy s (key-same f accuracy s xs h)
            (is_inaccurate-same f accuracy s xs h) values (empty_batch f) []
            (tt, tt, unfold fresh in fresh-IsSummary f accuracy))
          λ b g. close_batch-IsSummary b (finite_values values) g)
      where
        go :
            (r : Result DdError (Dd F))
            → Ensures (λ s'. IsSummary f accuracy s' (xs ++ finite_values values)) r
            → ((e : DdError) × (finish_batch f s r ≡ (err e, s)))
              ⊎ (((finish_batch f s r).0 ≡ ok tt)
                  × IsSummary f accuracy (finish_batch f s r).1 (xs ++ finite_values values))
        go (err e) k = inl (e, refl)
        go (ok s') k = inr (refl, k)
