-- ===== src/Tests/Views.antt =====
-- A view over three spans, one of them empty.
use fact_db.Prelude.{ℕ, ◌+◌, ◌≡◌, refl, some, List, [], ◌∷◌, arith}
use fact_db.MultiVectorView.{
  Iterator, Position, position, out_of_range, iterator_at, visit, begin, insert, size,
}
use fact_db.MultiVectorView.Sequence.{
  elements, visit-iterator_at, iterator_at-out_of_range, visit-begin,
}

abbrev spans : List (List ℕ)
spans = (7 ∷ 8 ∷ []) ∷ [] ∷ (9 ∷ []) ∷ []

abbrev second : Iterator
second = record { span_idx = 2; elem_idx = 0 }

iterator_at_runs : iterator_at spans 2 ≡ position second
unfolding iterator_at fact_db.MultiVectorView.position_from fact_db.MultiVectorView.iterator
    fact_db.MultiVectorView.skip_empty fact_db.MultiVectorView.skip_from
iterator_at_runs = refl

visit-iterator_at_example :
    (it : Iterator) × (iterator_at spans 2 ≡ position it)
    × (visit (size spans + 1) spans it ≡ some (9 ∷ []))
unfolding size
visit-iterator_at_example = visit-iterator_at spans 2 (omega arith)

iterator_at-out_of_range_example : iterator_at spans 4 ≡ out_of_range
unfolding size
iterator_at-out_of_range_example = iterator_at-out_of_range spans 4 (omega arith)

visit-begin_example :
    (visit (size spans + 1) spans (begin spans) ≡ some (7 ∷ 8 ∷ 9 ∷ []))
    × (size spans ≡ 3)
    × (elements (insert spans (5 ∷ [])) ≡ 7 ∷ 8 ∷ 9 ∷ 5 ∷ [])
visit-begin_example = visit-begin spans (5 ∷ [])
