-- ===== src/Sketch/Cms.antt =====
-- core/cms.py: the Count-Min sketch. The proofs are in the modules below.
pub mod Bump
pub mod Valid
pub mod Estimate
use Prim.Native.Nat.{bit_xor, min}
use sketchlog.Prelude.{
  ℕ, zero, suc, ◌+◌, ◌-◌, ◌*◌, ◌/◌, ◌%◌, ◌^◌, ◌≡◌, Bool, true, false, not, ◌||◌, Option, none, some,
  List, [], ◌∷◌, map, arith, ltb, leb, ◌==◌, if◌then◌else◌, get_or, set, replicate,
}
use sketchlog.Prelude.Int.{ℤ, pos, negsuc}
use sketchlog.Prelude.Exec.{Result, ok, err, Exec, raise_if}
use sketchlog.Sketch.Hash.{EventKey, bytes, str, word, hash, key_from_bytes}
use sketchlog.Sketch.Count.{Count, int, other, max_int64, is_positive, amount}

-- The exceptions, one for each message.
pub data CmsError : Type 0 where
  bad_width bad_depth not_positive count_capacity total_overflow bucket_overflow : CmsError

pub record Cms : Type 0 where
  pub width : ℕ
  pub depth : ℕ
  pub table : List (List ℕ)
  pub total : ℕ
  pub seeds : List ℕ

-- One round of splitmix64: the new state, and from it the next seed.
next_state : ℕ → ℕ
next_state state = (state + 0x9e3779b97f4a7c15) % word

splitmix : ℕ → ℕ
splitmix state =
    let a = bit_xor state (state / 2 ^ 30) * 0xbf58476d1ce4e5b9 % word in
    let b = bit_xor a (a / 2 ^ 27) * 0x94d049bb133111eb % word in bit_xor b (b / 2 ^ 31)

pub seeds_from : ℕ → ℕ → List ℕ
unfolding next_state splitmix
seeds_from zero state = []
seeds_from (suc depth) state = splitmix (next_state state) ∷ seeds_from depth (next_state state)

abbrev pub empty_table : ℕ → ℕ → List (List ℕ)
empty_table width depth = replicate depth (replicate width 0)

-- `__init__`
unfoldable pub init : ℤ → ℤ → Result CmsError Cms
unfolding seeds_from
init width depth =
    if not (is_positive width)
    then err bad_width
    else if not (is_positive depth)
    then err bad_depth
    else ok (record {
      width = amount width;
      depth = amount depth;
      table = empty_table (amount width) (amount depth);
      total = 0;
      seeds = seeds_from (amount depth) 42;
    })

unfoldable pub key_of : EventKey → ℤ
key_of (EventKey.int n) = n
key_of (bytes b) = pos (key_from_bytes b)
key_of (str b) = pos (key_from_bytes b)

-- `[self._hash(key, self._seeds[i]) % self._width for i in range(self._depth)]`: there are
-- `depth` seeds.
unfoldable pub columns : Cms → ℤ → List ℕ
columns s key = map (λ seed. hash key seed % s.width) s.seeds

-- `any(self._table[i][col] > limit for i, col in enumerate(columns))`. A column is below the
-- width of each row, so the default of `get_or` is not met.
pub any_above : ℕ → List (List ℕ) → List ℕ → Bool
any_above limit [] cols = false
any_above limit (row ∷ rows) [] = false
any_above limit (row ∷ rows) (c ∷ cols) = ltb limit (get_or row c 0) || any_above limit rows cols

-- `self._table[i][col] += count`
unfoldable pub bump : List (List ℕ) → List ℕ → ℕ → List (List ℕ)
bump [] cols n = []
bump (row ∷ rows) [] n = row ∷ rows
bump (row ∷ rows) (c ∷ cols) n = set row c (get_or row c 0 + n) ∷ bump rows cols n

-- `add` after the checks of the argument.
add_checked : ℤ → ℕ → Exec CmsError Cms (Unit {0})
unfolding any_above
add_checked key n s =
    raise_if (ltb (max_int64 - n) s.total) total_overflow
      (raise_if (any_above (max_int64 - n) s.table (columns s key)) bucket_overflow (λ s'.
        (ok tt, record s' { table = bump s'.table (columns s' key) n; total = s'.total + n })))
      s

unfoldable pub add : EventKey → Count → Exec CmsError Cms (Unit {0})
unfolding add_checked
add item other s = (err not_positive, s)
add item (int n) s =
    raise_if (not (is_positive n)) not_positive
      (raise_if (ltb max_int64 (amount n)) count_capacity (add_checked (key_of item) (amount n))) s

-- The loop of `estimate`; `none` is the initial `float('inf')`.
abbrev pub least : Option ℕ → ℕ → ℕ
least none n = n
least (some m) n = min m n

unfoldable pub estimate_from : Option ℕ → List (List ℕ) → List ℕ → Option ℕ
estimate_from acc [] cols = acc
estimate_from acc (row ∷ rows) [] = acc
estimate_from acc (row ∷ rows) (c ∷ cols) =
    estimate_from (some (least acc (get_or row c 0))) rows cols

-- `none` stands for the OverflowError of `int(inf)`.
unfoldable pub estimate : Cms → EventKey → Option ℕ
estimate s item = estimate_from none s.table (columns s (key_of item))

unfoldable pub total_count : Cms → ℕ
total_count s = s.total

unfoldable pub memory_bytes : Cms → ℕ
memory_bytes s = 64 + s.width * s.depth * 8

unfoldable pub reset : Cms → Cms
reset s = record s { table = empty_table s.width s.depth; total = 0 }
