-- ===== src/Log/State/RoundTrip.antt =====
-- `from_dict` of `to_dict`: a log that satisfies what `from_dict` checks is restored as it was.
use sketchlog.Prelude.{
  ◌+◌, ◌-◌, ◌/◌, ◌^◌, ◌<◌, ◌≡◌, refl, sym, inl, inr, Bool, true, false, not, ◌||◌, [], arith, ltb,
  ◌==◌, if◌then◌else◌, length, Bool-cases,
}
use sketchlog.Prelude.Int.{ℤ, pos, ltb_ℤ}
use sketchlog.Prelude.Exec.{ok, Passes, refuse_first-ok}
use sketchlog.Prelude.Float.{Float}
use sketchlog.Sketch.Count.{max_int64, max_uint64, is_positive}
use sketchlog.Sketch.Bins.{AllKeys, total}
use sketchlog.Sketch.Cms
use sketchlog.Sketch.Hll
use sketchlog.Sketch.Ddsketch.{Dd, max_bins, fresh, key}
use sketchlog.Sketch.Ddsketch
use sketchlog.Log
use sketchlog.Log.{StreamLog, max_cells}
use sketchlog.Log.Valid.{IsStreamLog}
use sketchlog.Log.State.{
  float, lookup, store_fields, extremum, latency_dict, uniques_dict, events_dict, to_dict,
}
use sketchlog.Log.State.Read.{
  bad_zero_count, bad_count, bad_precision, bad_registers, bad_width, bad_depth, bad_events_total,
  bad_total,
}
use sketchlog.Log.State.Latency.{
  read_alpha, extrema_checks, as_number, read_extrema, read_buckets, read_latency,
}
use sketchlog.Log.State.Decode.{
  read_uniques, read_table, read_events, restore, assemble, read_sketches, read_fields, from_dict,
}
use sketchlog.Log.State.Made.{new_log, new_events, new_uniques}
use sketchlog.Prelude.Key.{int_beq}
use sketchlog.Log.State.Written.{
  no_keys, extremum-used, extremum-empty, bounded-pos, at_least_one-pos, size-int_list,
  size-row_list, bounded_list-int_list, read_rows-row_list, validate_buckets-store_fields,
}

module _ (f : Float) where
  open f use {F, of_nat, lt, le, eq, log, inf, neg, tiny, largest, millionth}

  -- An index is in the range of the finite values.
  abbrev pub InRange : F → ℤ → Type 0
  InRange alpha k =
      (ltb_ℤ k (key f (fresh f alpha) tiny) || ltb_ℤ (key f (fresh f alpha) largest) k) ≡ false

  -- What `from_dict` asks of a log beyond its validity.
  pub record IsRestorable (s : StreamLog F) : Type 0 where
    pub valid : IsStreamLog s
    pub low : le millionth s.latency.alpha ≡ true
    pub above_zero : lt (of_nat 0) s.latency.alpha ≡ true
    pub high : lt s.latency.alpha (of_nat 1) ≡ true
    pub spread : eq (log s.latency.gamma) (of_nat 0) ≡ false
    pub gamma : s.latency.gamma ≡ (fresh f s.latency.alpha).gamma
    pub multiplier : s.latency.multiplier ≡ (fresh f s.latency.alpha).multiplier
    pub cells : ltb (max_cells / s.events.depth) s.events.width ≡ false
    pub positive : AllKeys (InRange s.latency.alpha) s.latency.positive
    pub negative : AllKeys (InRange s.latency.alpha) s.latency.negative
    pub extrema : 0 < s.latency.count → Passes (extrema_checks f s.latency)
    pub no_extrema : s.latency.count ≡ 0 → (s.latency.min ≡ inf) × (s.latency.max ≡ neg inf)

  module _ (s : StreamLog F) (h : IsRestorable s) where
    open h use {valid}

    -- The sketch that the buckets and the counters give, before the extrema are set.
    abbrev bare : Dd F
    bare = record (fresh f s.latency.alpha) {
      positive = s.latency.positive;
      negative = s.latency.negative;
      zero_count = s.latency.zero_count;
      count = s.latency.count;
    }

    read_alpha-written : read_alpha f (float s.latency.alpha) ≡ ok s.latency.alpha
    unfolding read_alpha
    read_alpha-written = rw (h.above_zero, h.high) refl

    read_buckets-written :
        read_buckets f s.latency.alpha s.latency.zero_count s.latency.count
          (store_fields s.latency.positive)
          (store_fields s.latency.negative)
        ≡ ok bare
    unfolding read_buckets
    read_buckets-written =
        let few_pos : ltb max_bins (length s.latency.positive) ≡ false =
          ground (arith, valid.latency.positives.bounded) in
        let few_neg : ltb max_bins (length s.latency.negative) ≡ false =
          ground (arith, valid.latency.negatives.bounded) in
        let sums : (s.latency.count
              == s.latency.zero_count + total s.latency.positive + total s.latency.negative)
            ≡ true =
          ground (arith, valid.latency.counted) in
        rw
          (
            validate_buckets-store_fields F _ _ s.latency.positive []
                valid.latency.positives.distinct valid.latency.positives.counts h.positive
                (no_keys s.latency.positive),
            validate_buckets-store_fields F _ _ s.latency.negative []
                valid.latency.negatives.distinct valid.latency.negatives.counts h.negative
                (no_keys s.latency.negative),
            few_pos,
            few_neg,
            sums,
          )
          refl

    -- With its extrema the sketch is the one of the log.
    abbrev whole : Dd F
    whole = record bare { min = s.latency.min; max = s.latency.max }

    whole-latency : whole ≡ s.latency
    unfolding fresh
    whole-latency = λ i. record {
      alpha = s.latency.alpha;
      gamma = sym h.gamma i;
      multiplier = sym h.multiplier i;
      positive = s.latency.positive;
      negative = s.latency.negative;
      zero_count = s.latency.zero_count;
      count = s.latency.count;
      min = s.latency.min;
      max = s.latency.max;
    }

    bare-whole : s.latency.count ≡ 0 → bare ≡ whole
    unfolding fresh
    bare-whole e =
        λ i. record bare { min = sym (h.no_extrema e).0 i; max = sym (h.no_extrema e).1 i }

    read_extrema-written :
        read_extrema f bare
          (extremum s.latency.count s.latency.min)
          (extremum s.latency.count s.latency.max)
        ≡ ok s.latency
    unfolding read_extrema as_number
    read_extrema-written = elim (Bool-cases (ltb 0 s.latency.count)) [
      | inl used ↦
          let some_values : 0 < s.latency.count = ground (arith, used) in
          rw
            (
              extremum-used s.latency.count s.latency.min some_values,
              extremum-used s.latency.count s.latency.max some_values,
              used,
              whole-latency,
            )
            (refuse_first-ok (extrema_checks f s.latency) (ok s.latency) (h.extrema some_values))
      | inr empty ↦
          let none_of : s.latency.count ≡ 0 = ground (arith, empty) in
          rw
            (
              extremum-empty s.latency.count s.latency.min none_of,
              extremum-empty s.latency.count s.latency.max none_of,
              empty,
              bare-whole none_of,
              whole-latency,
            )
            refl
    ]

    read_latency-written : read_latency f (latency_dict s) ≡ ok s.latency
    unfolding read_latency latency_dict lookup
    read_latency-written =
        rw
          (
            read_alpha-written,
            bounded-pos F max_int64 s.latency.zero_count bad_zero_count valid.latency.zeros,
            bounded-pos F max_uint64 s.latency.count bad_count valid.latency.fits,
            ← h.gamma,
            h.spread,
            read_buckets-written,
            read_extrema-written,
          )
          refl

    read_uniques-written : read_uniques f (uniques_dict s) ≡ ok (s.uniques.p, s.uniques.registers)
    unfolding read_uniques uniques_dict lookup
    read_uniques-written =
        let low : ltb s.uniques.p 4 ≡ false = ground (arith, valid.uniques.low) in
        let tall : (length s.uniques.registers == 2 ^ s.uniques.p) ≡ true =
          rw (valid.uniques.count) (ground arith) in
        rw
          (
            bounded-pos F 18 s.uniques.p bad_precision valid.uniques.high,
            low,
            size-int_list F s.uniques.registers,
            tall,
            bounded_list-int_list F (64 - s.uniques.p + 1) bad_registers s.uniques.registers
                valid.uniques.ranks,
          )
          refl

    read_table-written :
        read_table f s.events.width s.events.depth s.events.total (events_dict s)
        ≡ ok s.events.table
    unfolding read_table events_dict lookup
    read_table-written =
        let tall : (length s.events.table == s.events.depth) ≡ true =
          rw (valid.events.tall) (ground arith) in
        rw (size-row_list F s.events.table, tall)
          (read_rows-row_list F s.events.width s.events.total s.events.table valid.events.fits
            valid.events.rows)

    read_events-written :
        read_events f (events_dict s)
        ≡ ok (s.events.width, s.events.depth, s.events.total, s.events.table)
    unfolding read_events
    read_events-written =
        let table = read_table-written in
        unfold events_dict lookup in
        rw
          (
            at_least_one-pos F s.events.width bad_width valid.events.wide,
            at_least_one-pos F s.events.depth bad_depth valid.events.deep,
            h.cells,
            bounded-pos F max_int64 s.events.total bad_events_total valid.events.fits,
            table,
          )
          refl

    init_latency : Ddsketch.init f s.latency.alpha ≡ ok (fresh f s.latency.alpha)
    unfolding Ddsketch.init
    init_latency = ground (arith, h.low, h.high)

    init_events :
        Cms.init (pos s.events.width) (pos s.events.depth)
        ≡ ok (new_events s.events.width s.events.depth)
    unfolding Cms.init
    init_events = ground (arith, valid.events.wide, valid.events.deep)

    init_uniques : Hll.init (pos s.uniques.p) ≡ ok (new_uniques s.uniques.p)
    unfolding Hll.init
    init_uniques = ground (arith, valid.uniques.low, valid.uniques.high)

    init-restorable :
        Log.init f s.latency.alpha (pos s.uniques.p) (pos s.events.width) (pos s.events.depth)
        ≡ ok (new_log f s.latency.alpha s.uniques.p s.events.width s.events.depth)
    unfolding Log.init
    init-restorable =
        let sized : (not (is_positive (pos s.events.width))
              || not (is_positive (pos s.events.depth)))
            ≡ false =
          ground (arith, valid.events.wide, valid.events.deep) in
        rw (sized, h.cells, init_latency, init_events, init_uniques) refl

    restore-restorable :
        restore f s.total s.latency s.uniques.registers s.events.total s.events.table
          (new_log f s.latency.alpha s.uniques.p s.events.width s.events.depth)
        ≡ s
    unfolding restore fresh
    restore-restorable = λ i. record {
      latency = record {
        alpha = s.latency.alpha;
        gamma = sym h.gamma i;
        multiplier = sym h.multiplier i;
        positive = s.latency.positive;
        negative = s.latency.negative;
        zero_count = s.latency.zero_count;
        count = s.latency.count;
        min = least i;
        max = most i;
      };
      events = record {
        width = s.events.width;
        depth = s.events.depth;
        table = s.events.table;
        total = s.events.total;
        seeds = sym valid.events.seeded i;
      };
      uniques = record { p = s.uniques.p; registers = s.uniques.registers };
      total = s.total;
    }
      where
        least : (if ltb 0 s.latency.count then s.latency.min else inf) ≡ s.latency.min
        least = ground (arith, h.no_extrema)

        most : (if ltb 0 s.latency.count then s.latency.max else neg inf) ≡ s.latency.max
        most = ground (arith, h.no_extrema)

    assemble-restorable :
        assemble f s.total s.latency
          (s.uniques.p, s.uniques.registers)
          (s.events.width, s.events.depth, s.events.total, s.events.table)
        ≡ ok s
    unfolding assemble
    assemble-restorable =
        let consistent : (s.total == s.latency.count + s.events.total) ≡ true =
          ground (arith, valid.counted) in
        rw (consistent, init-restorable, restore-restorable) refl

    -- The fields of the log, as `to_dict` writes them.
    pub from_dict-to_dict_lem :
        (deterministic : Bool) → from_dict f (to_dict deterministic s) ≡ ok (deterministic, s)
    unfolding from_dict to_dict read_fields read_sketches lookup int_beq
    from_dict-to_dict_lem deterministic =
        rw
          (
            bounded-pos F max_uint64 s.total bad_total valid.fits,
            read_latency-written,
            read_uniques-written,
            read_events-written,
            assemble-restorable,
          )
          refl
