-- ===== src/Windowed/Ring.antt =====
-- The ring of a window: how far a bucket lies behind the current one, and what a restart changes.
use native.Mathlib.Nat.{mod-eq_of_lt, mod_self}
use sketchlog.Prelude.{
  ap, ℕ, zero, suc, ◌+◌, ◌-◌, ◌%◌, ◌<◌, ◌≡◌, ◌≢◌, ◌⊎◌, refl, inl, inr, some, List, [], ◌∷◌, length,
  get_elem?, if◌then◌else◌, leb, ◌==◌, arith, Bool-cases,
}
use sketchlog.Prelude.Float.{Float}
use sketchlog.Log.{StreamLog}
use sketchlog.Log
use sketchlog.Sketch.Ddsketch as Dd
use sketchlog.Sketch.Cms
use sketchlog.Sketch.Hll
use sketchlog.Windowed.{Bucket, start_at, restart, restart_all}

-- The number of turns since the bucket at `i` was the current one, where it was.
abbrev pub back : (n cursor i : ℕ) → ℕ
back n cursor i = if leb i cursor then cursor - i else cursor + n - i

-- The next index of a ring.
abbrev pub IsNext : (n cursor next : ℕ) → Type 0
IsNext n cursor next = ((cursor + 1 ≡ n) × (next ≡ 0)) ⊎ ((cursor + 1 < n) × (next ≡ cursor + 1))

pub IsNext-mod : (n cursor : ℕ) → cursor < n → IsNext n cursor ((cursor + 1) % n)
IsNext-mod n cursor h = elim (Bool-cases (cursor + 1 == n)) [
  | inl wrap ↦ let e : cursor + 1 ≡ n = ground arith in inl (e, rw e (mod_self n))
  | inr inside ↦ inr (ground arith, mod-eq_of_lt (ground arith))
]

-- A turn makes every other bucket one older, and the next one was the oldest.
pub back-next :
    (n cursor next i : ℕ)
    → IsNext n cursor next
    → i < n
    → i ≢ next
    → back n next i ≡ suc (back n cursor i)
back-next n cursor next i (inl h) k ne = ground arith
back-next n cursor next i (inr h) k ne = ground arith

pub back-oldest : (n cursor next : ℕ) → IsNext n cursor next → suc (back n cursor next) ≡ n
back-oldest n cursor next (inl h) = ground arith
back-oldest n cursor next (inr h) = ground arith

pub back_self : (n cursor : ℕ) → back n cursor cursor ≡ 0
back_self n cursor = ground arith

module _ {F : Type 0} where
  pub start_at-get_elem? :
      (i : ℕ) (bs : List (Bucket F)) (b : Bucket F)
      → get_elem? bs i ≡ some b
      → start_at i bs ≡ b.start
  unfolding start_at
  start_at-get_elem? i [] b h = cc
  start_at-get_elem? zero (x ∷ bs) b h = let e : x ≡ b = cc in ap (λ y. y.start) e
  start_at-get_elem? (suc i) (x ∷ bs) b h = start_at-get_elem? i bs b h

module _ (f : Float) where
  open f use {F}

  abbrev pub restarted : ℕ → Bucket F → Bucket F
  restarted t b = record { log = Log.reset f b.log; start = t }

  pub length-restart : (i t : ℕ) (bs : List (Bucket F)) → length (restart f i t bs) ≡ length bs
  unfolding restart
  length-restart i t [] = refl
  length-restart zero t (b ∷ bs) = refl
  length-restart (suc i) t (b ∷ bs) = ap suc (length-restart i t bs)

  pub length-restart_all : (t : ℕ) (bs : List (Bucket F)) → length (restart_all f t bs) ≡ length bs
  unfolding restart_all
  length-restart_all t [] = refl
  length-restart_all t (b ∷ bs) = ap suc (length-restart_all t bs)

  pub start_at-restart :
      (i t : ℕ) (bs : List (Bucket F)) → i < length bs → start_at i (restart f i t bs) ≡ t
  unfolding restart start_at
  start_at-restart i t [] h = absurd (ground arith)
  start_at-restart zero t (b ∷ bs) h = refl
  start_at-restart (suc i) t (b ∷ bs) h = start_at-restart i t bs (omega arith)

  pub get_elem?-restart_ne :
      (i j t : ℕ) (bs : List (Bucket F)) → j ≢ i → get_elem? (restart f i t bs) j ≡ get_elem? bs j
  unfolding restart
  get_elem?-restart_ne i j t [] h = refl
  get_elem?-restart_ne zero zero t (b ∷ bs) h = absurd (h refl)
  get_elem?-restart_ne zero (suc j) t (b ∷ bs) h = refl
  get_elem?-restart_ne (suc i) zero t (b ∷ bs) h = refl
  get_elem?-restart_ne (suc i) (suc j) t (b ∷ bs) h =
      get_elem?-restart_ne i j t bs (λ e. h (ap suc e))

  -- The bucket of a restarted index is a restarted one.
  pub get_elem?-restart_self :
      (i t : ℕ) (bs : List (Bucket F)) (b : Bucket F)
      → get_elem? (restart f i t bs) i ≡ some b
      → (old : Bucket F) × (get_elem? bs i ≡ some old) × (b ≡ restarted t old)
  unfolding restart
  get_elem?-restart_self i t [] b h = cc
  get_elem?-restart_self zero t (x ∷ bs) b h = (x, refl, cc)
  get_elem?-restart_self (suc i) t (x ∷ bs) b h = get_elem?-restart_self i t bs b h

  pub get_elem?-restart_all :
      (i t : ℕ) (bs : List (Bucket F)) (b : Bucket F)
      → get_elem? (restart_all f t bs) i ≡ some b
      → (old : Bucket F) × (get_elem? bs i ≡ some old) × (b ≡ restarted t old)
  unfolding restart_all
  get_elem?-restart_all i t [] b h = cc
  get_elem?-restart_all zero t (x ∷ bs) b h = (x, refl, cc)
  get_elem?-restart_all (suc i) t (x ∷ bs) b h = get_elem?-restart_all i t bs b h

  pub start_at-restart_all :
      (i t : ℕ) (bs : List (Bucket F)) → i < length bs → start_at i (restart_all f t bs) ≡ t
  unfolding restart_all start_at
  start_at-restart_all i t [] h = absurd (ground arith)
  start_at-restart_all zero t (b ∷ bs) h = refl
  start_at-restart_all (suc i) t (b ∷ bs) h = start_at-restart_all i t bs (omega arith)

  -- A log that nothing has been written to since it was reset.
  abbrev pub IsFresh : StreamLog F → Type 0
  IsFresh log = Log.reset f log ≡ log

  pub reset-IsFresh : (log : StreamLog F) → IsFresh (Log.reset f log)
  unfolding Log.reset Dd.reset Cms.reset Hll.reset
  reset-IsFresh log = refl
