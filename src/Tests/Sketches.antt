-- ===== src/Tests/Sketches.antt =====
-- Runs of the theorems about the sketches.
use sketchlog.Prelude.Int.{negsuc}
use sketchlog.Prelude.{◌+◌, ◌⊎◌}
use sketchlog.Sketch.Ddsketch.{DdError}
use sketchlog.Sketch.Ddsketch.Gather.{add_batch-IsDd}
use sketchlog.Sketch.Ddsketch.Batch.{add_batch, finite_count}
use sketchlog.Prelude.Int.{ltb_ℤ}
use mathlib.Core.List.{Mem, Subset, not-mem-nil, mem-cons, mem-cons_self, mem-cons_of_mem}
use mathlib.Core.Logic.Or
use sketchlog.Prelude.{ℕ, ◌≤◌, ◌≡◌, refl, some, List, [], ◌∷◌, ◌++◌, replicate}
use sketchlog.Prelude.Int.{ℤ, pos, negsuc}
use sketchlog.Prelude.Exec.{ok, err, Outcome}
use sketchlog.Sketch.Count.{Count}
use sketchlog.Sketch.Hash.{EventKey}
use sketchlog.Sketch.Cms
use sketchlog.Sketch.Cms.{Cms, count_capacity, total_overflow, not_positive}
use sketchlog.Sketch.Cms.Valid.{IsCms, init-IsCms, add_cases, added}
use sketchlog.Sketch.Cms.Estimate.{Call, run, tally, added_total, estimate_bounds}
use sketchlog.Sketch.Hll
use sketchlog.Sketch.Hll.{Hll, Item}
use sketchlog.Sketch.Hll.Valid.{IsHll, init-IsHll}
use sketchlog.Sketch.Hll.Merge.{add_all, merge-streams, add_all-same_items}
use sketchlog.Sketch.Ddsketch
use sketchlog.Sketch.Ddsketch.{Dd}
use sketchlog.Sketch.Ddsketch.Outcome.{Commits, add-Outcome}
use sketchlog.Sketch.Ddsketch.Valid.{IsDd, init-IsDd, add-IsDd}
use sketchlog.Tests.Whole.{whole, whole_order}

abbrev small_cms : Cms
unfolding Cms.init
small_cms = elim (Cms.init (pos 8) (pos 2)) [
  | ok s ↦ s
  | err e ↦ record { width = 0; depth = 0; table = []; total = 0; seeds = [] }
]

small_cms_made : Cms.init (pos 8) (pos 2) ≡ ok small_cms
unfolding Cms.init
small_cms_made = refl

abbrev login : EventKey
login = EventKey.str (108 ∷ 111 ∷ 103 ∷ [])

abbrev calls : List Call
calls =
    (login, Count.int (pos 3))
    ∷ (EventKey.int (negsuc 4), Count.int (pos 2))
    ∷ (login, Count.other)
    ∷ []

estimate_bounds_example :
    (e : ℕ) × (Cms.estimate (run calls small_cms []).0 login ≡ some e)
    × (tally (Cms.key_of login) (run calls small_cms []).1 ≤ e)
    × (e ≤ Cms.total_count (run calls small_cms []).0)
    × (Cms.total_count (run calls small_cms []).0 ≡ added_total (run calls small_cms []).1)
estimate_bounds_example = estimate_bounds (pos 8) (pos 2) small_cms calls login small_cms_made

small_cms-IsCms : IsCms small_cms
small_cms-IsCms = init-IsCms (pos 8) (pos 2) small_cms small_cms_made

add_cases_example :
    Cms.add login (Count.int (pos 5)) small_cms ≡ (ok tt, added small_cms (Cms.key_of login) 5)
unfolding small_cms
add_cases_example = add_cases login (pos 5) small_cms small_cms-IsCms

abbrev small_hll : Hll
small_hll = record { p = 4; registers = replicate 16 0 }

small_hll-IsHll : IsHll small_hll
small_hll-IsHll = init-IsHll (pos 4) small_hll (unfold Hll.init in refl)

abbrev users : List Item
users = Item.int (pos 7) ∷ Item.str (97 ∷ []) ∷ []

abbrev more_users : List Item
more_users = Item.str (97 ∷ []) ∷ Item.int (pos 7) ∷ Item.int (pos 7) ∷ []

merge-streams_example :
    Hll.merge (add_all users (Hll.reset small_hll)) (add_all more_users (Hll.reset small_hll))
    ≡ add_all (users ++ more_users) (Hll.reset small_hll)
merge-streams_example = merge-streams small_hll users more_users small_hll-IsHll

cons-Subset : (x : Item) (xs ys : List Item) → Mem x ys → Subset xs ys → Subset (x ∷ xs) ys
cons-Subset x xs ys here rest a m = Or.elim (hlevel) (mem-cons.0 m) (λ e. rw e here) (rest a)

nil-Subset : (ys : List Item) → Subset [] ys
nil-Subset ys a m = absurd (not-mem-nil m)

users-Subset : Subset users more_users
users-Subset =
    cons-Subset _ _ more_users (mem-cons_of_mem _ mem-cons_self)
      (cons-Subset _ _ more_users mem-cons_self (nil-Subset more_users))

more_users-Subset : Subset more_users users
more_users-Subset =
    cons-Subset _ _ users (mem-cons_of_mem _ mem-cons_self)
      (cons-Subset _ _ users mem-cons_self (cons-Subset _ _ users mem-cons_self (nil-Subset users)))

add_all-same_items_example : add_all users small_hll ≡ add_all more_users small_hll
add_all-same_items_example =
    add_all-same_items users more_users small_hll small_hll-IsHll users-Subset more_users-Subset

abbrev small_dd : Dd ℤ
unfolding Ddsketch.fresh
small_dd = Ddsketch.fresh whole (pos 0)

small_dd-IsDd : IsDd small_dd
unfolding ltb_ℤ small_dd Ddsketch.fresh
small_dd-IsDd = init-IsDd whole whole_order (pos 0) small_dd (unfold Ddsketch.init in refl)

add-IsDd_example : IsDd (Ddsketch.add whole (pos 3) (Count.int (pos 2)) small_dd).1
add-IsDd_example = add-IsDd whole whole_order (pos 3) (Count.int (pos 2)) small_dd small_dd-IsDd

dd_add-Outcome_example :
    Outcome
      (Commits whole (pos 3) (Count.int (pos 2)) small_dd)
      small_dd
      (Ddsketch.add whole (pos 3) (Count.int (pos 2)) small_dd)
dd_add-Outcome_example = add-Outcome whole (pos 3) (Count.int (pos 2)) small_dd

add_batch-IsDd_example :
    ((e : DdError) × (add_batch whole (pos 3 ∷ pos 0 ∷ negsuc 1 ∷ []) small_dd ≡ (err e, small_dd)))
    ⊎ (((add_batch whole (pos 3 ∷ pos 0 ∷ negsuc 1 ∷ []) small_dd).0 ≡ ok tt)
        × IsDd (add_batch whole (pos 3 ∷ pos 0 ∷ negsuc 1 ∷ []) small_dd).1
        × ((add_batch whole (pos 3 ∷ pos 0 ∷ negsuc 1 ∷ []) small_dd).1.count
            ≡ small_dd.count + finite_count whole (pos 3 ∷ pos 0 ∷ negsuc 1 ∷ [])))
add_batch-IsDd_example = add_batch-IsDd whole (pos 3 ∷ pos 0 ∷ negsuc 1 ∷ []) small_dd small_dd-IsDd
