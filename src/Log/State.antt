-- ===== src/Log/State.antt =====
-- facade.py: `to_dict` and `from_dict`, the state of a StreamLog as a Python value of the kinds
-- that JSON has. `from_dict` takes any such value; its exceptions all become a ValueError.
pub mod Read
pub mod Latency
pub mod Decode
pub mod Accepts
pub mod Made
pub mod ValidLatency
pub mod Sound
pub mod Written
pub mod RoundTrip
pub mod Histogram
pub mod Extrema
pub mod Saved
use Prim.Native.Char.{code}
use Prim.Native.String.{[] as empty, ◌∷◌ as ◌::◌}
use sketchlog.Prelude.{
  ℕ, zero, suc, ◌+◌, ◌-◌, ◌*◌, Bool, true, false, ◌&&◌, Option, none, some, List, [], ◌∷◌, String,
  leb, ◌==◌, if◌then◌else◌, map,
}
use sketchlog.Prelude.Int.{ℤ, pos, negsuc}
use sketchlog.Prelude.Key.{string_key}
use sketchlog.Prelude.Key.{◌==◌ as ◌=s=◌}
use sketchlog.Prelude.Float.{Float}
use sketchlog.Sketch.Bins.{Bins}
use sketchlog.Log.{StreamLog}

-- The key of a dictionary: an `int`, which JSON turns into its text, or a text.
pub data Name : Type 0 where
  number : ℤ → Name
  word : String → Name

mutual
  pub data Value (F : Type 0) : Type 0 where
    null : Value F
    boolean : Bool → Value F
    int : ℤ → Value F
    float : F → Value F
    text : String → Value F
    array : Values F → Value F
    dict : Fields F → Value F

  pub data Values (F : Type 0) : Type 0 where
    nil : Values F
    cons : Value F → Values F → Values F

  pub data Fields (F : Type 0) : Type 0 where
    end : Fields F
    field : Name → Value F → Fields F → Fields F

-- `d.get(name)` of a text
unfoldable pub lookup : {F : Type 0} → String → Fields F → Option (Value F)
lookup name end = none
lookup name (field (number k) v d) = lookup name d
lookup name (field (word k) v d) = if k =s= name then some v else lookup name d

module _ {F : Type 0} where
  -- `dict(store)`, `list(registers)` and a row of a table
  abbrev pub store_fields : Bins → Fields F
  store_fields [] = end
  store_fields ((k, n) ∷ store) = field (number k) (int (pos n)) (store_fields store)

  abbrev pub int_list : List ℕ → Values F
  int_list [] = nil
  int_list (n ∷ ns) = cons (int (pos n)) (int_list ns)

  abbrev pub row_list : List (List ℕ) → Values F
  row_list [] = nil
  row_list (row ∷ rows) = cons (array (int_list row)) (row_list rows)

  -- `x if count > 0 else None`
  abbrev pub extremum : ℕ → F → Value F
  extremum zero x = null
  extremum (suc n) x = float x

  -- `to_dict`; `deterministic` is the flag of the constructor.
  unfoldable pub latency_dict : StreamLog F → Fields F
  latency_dict s = field (word "alpha") (float s.latency.alpha) (
      field (word "positive") (dict (store_fields s.latency.positive)) (
        field (word "negative") (dict (store_fields s.latency.negative)) (
          field (word "zero_count") (int (pos s.latency.zero_count)) (
            field (word "count") (int (pos s.latency.count)) (
              field (word "min") (extremum s.latency.count s.latency.min)
                (field (word "max") (extremum s.latency.count s.latency.max) end))))))

  unfoldable pub uniques_dict : StreamLog F → Fields F
  uniques_dict s =
      field (word "precision") (int (pos s.uniques.p))
        (field (word "registers") (array (int_list s.uniques.registers)) end)

  unfoldable pub events_dict : StreamLog F → Fields F
  events_dict s = field (word "width") (int (pos s.events.width)) (
      field (word "depth") (int (pos s.events.depth)) (
        field (word "table") (array (row_list s.events.table))
          (field (word "total") (int (pos s.events.total)) end)))

  unfoldable pub to_dict : Bool → StreamLog F → Value F
  to_dict deterministic s = dict (
      field (word "version") (int (pos 1)) (
        field (word "total") (int (pos s.total)) (
          field (word "deterministic") (boolean deterministic) (
            field (word "latency") (dict (latency_dict s)) (
              field (word "uniques") (dict (uniques_dict s))
                (field (word "events") (dict (events_dict s)) end))))))

-- `int(k)` for a text that is the `str` of its integer; of any other, the code raises.
unfoldable pub is_digit : ℕ → Bool
is_digit c = leb 48 c && leb c 57

unfoldable pub digits_from : ℕ → String → Option ℕ
digits_from n empty = some n
digits_from n (c :: rest) =
    let next = digits_from (n * 10 + (code c - 48)) rest in if is_digit (code c) then next else none

unfoldable pub canonical_nat : String → Option ℕ
canonical_nat empty = none
canonical_nat (c :: rest) =
    if code c == 48 then (if rest =s= "" then some 0 else none) else digits_from 0 (c :: rest)

-- `"-0"` is not canonical.
abbrev pub negated : Option ℕ → Option ℤ
negated none = none
negated (some zero) = none
negated (some (suc n)) = some (negsuc n)

abbrev pub as_pos : Option ℕ → Option ℤ
as_pos none = none
as_pos (some n) = some (pos n)

unfoldable pub canonical_int : String → Option ℤ
canonical_int empty = none
canonical_int (c :: rest) =
    if code c == 45 then negated (canonical_nat rest) else as_pos (canonical_nat (c :: rest))
