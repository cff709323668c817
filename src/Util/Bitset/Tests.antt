-- ===== src/Util/Bitset/Tests.antt =====
-- The theorems on util/bitset.cc at a Bitset of ten bits, of which the fourth is set.
use simple_ssd.Base.{ℕ, ◌≡◌, ◌↔◌, true, false, not, ◌&&◌, arith, ltb, sym, ◌∙◌}
use simple_ssd.Base.Result.{ok}
use simple_ssd.Util.Bitset.{
  Bitset, create, test, set_at, flip_at, set_all, count, none, and_with, IsValid,
}
use simple_ssd.Util.Bitset.Access.{test-set_at, test-flip_at, set_at-IsValid, data_size-set_at}
use simple_ssd.Util.Bitset.Whole.{create-IsValid, test-set_all, data_size-create}
use simple_ssd.Util.Bitset.Byte.{count_below}
use simple_ssd.Util.Bitset.Count.{count_lem, none_iff}
use simple_ssd.Util.Bitset.Combine.{Combines, and_with-Combines}

empty-IsValid : IsValid (create 10)
empty-IsValid = create-IsValid 10 (omega arith)

ten : (create 10).data_size ≡ 10
ten = data_size-create 10

abbrev marked : Bitset
marked = set_at (create 10) 3 true

marked-IsValid : IsValid marked
marked-IsValid = set_at-IsValid empty-IsValid 3 (omega (arith, ten)) true

marked_ten : marked.data_size ≡ 10
marked_ten = data_size-set_at empty-IsValid 3 (omega (arith, ten)) true ∙ ten

test-set_at_example : test (set_at (create 10) 3 true) 4 ≡ test (create 10) 4
test-set_at_example = test-set_at empty-IsValid 3 (omega (arith, ten)) true 4

test-flip_at_example : test (flip_at marked 3) 3 ≡ not (test marked 3)
test-flip_at_example = test-flip_at marked-IsValid 3 (omega (arith, marked_ten)) 3

test-set_all_example : test (set_all marked) 9 ≡ ltb 9 marked.data_size
test-set_all_example = test-set_all marked-IsValid (omega (arith, marked_ten)) 9

count_lem_example : count marked ≡ count_below marked.data_size (test marked)
count_lem_example = count_lem {b = marked} marked-IsValid

none_iff_example : (none marked ≡ true) ↔ ((j : ℕ) → test marked j ≡ false)
none_iff_example = none_iff {b = marked} marked-IsValid

same_size : marked.data_size ≡ (create 10).data_size
same_size = marked_ten ∙ sym ten

and_with-Combines_example :
    (r : Bitset) × (and_with marked (create 10) ≡ ok r) × Combines ◌&&◌ marked (create 10) r
and_with-Combines_example = and_with-Combines marked-IsValid empty-IsValid same_size
