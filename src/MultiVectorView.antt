-- ===== src/MultiVectorView.antt =====
-- factDB/infra/MultiVectorView.hpp: a view over several ranges, as one sequence. A span is the list of
-- its elements. `none` is an access out of bounds; `out_of_range` is the exception.
pub mod Sequence
use fact_db.Prelude.{
  ℕ, zero, suc, ◌+◌, ◌-◌, Bool, true, false, ◌&&◌, Option, none, some, List, [], ◌∷◌, ◌++◌, ltb,
  leb, ◌==◌, if◌then◌else◌, ◌>>=◌, length, get_elem?, drop,
}

pub record Iterator : Type 0 where
  pub span_idx : ℕ
  pub elem_idx : ℕ

pub data Position : Type 0 where
  position : Iterator → Position
  out_of_range : Position

module _ {ℓ} {A : Type ℓ} where
  -- The loop of `skip_empty` over the spans from `span_idx` on.
  unfoldable pub skip_from : List (List A) → ℕ → ℕ
  skip_from [] span_idx = span_idx
  skip_from ([] ∷ spans) span_idx = skip_from spans (span_idx + 1)
  skip_from ((x ∷ s) ∷ spans) span_idx = span_idx

  unfoldable pub skip_empty : List (List A) → ℕ → ℕ
  skip_empty spans span_idx = skip_from (drop span_idx spans) span_idx

  -- The constructor.
  unfoldable pub iterator : List (List A) → ℕ → ℕ → Iterator
  iterator spans span_idx elem_idx = record {
    span_idx = skip_empty spans span_idx;
    elem_idx = elem_idx;
  }

  unfoldable pub dereference : List (List A) → Iterator → Option A
  dereference spans it = do s ← get_elem? spans it.span_idx; get_elem? s it.elem_idx

  -- `++it`
  unfoldable pub advance : List (List A) → Iterator → Option Iterator
  advance spans it = do
    s ← get_elem? spans it.span_idx
    some (
        if leb (length s) (it.elem_idx + 1)
        then record { span_idx = skip_empty spans (it.span_idx + 1); elem_idx = 0 }
        else record it { elem_idx = it.elem_idx + 1 })

  unfoldable pub insert : List (List A) → List A → List (List A)
  insert spans s = spans ++ s ∷ []

  unfoldable pub begin : List (List A) → Iterator
  begin spans = iterator spans 0 0

  unfoldable pub end : List (List A) → Iterator
  end spans = iterator spans (length spans) 0

  -- The loop of `iterator_at` over the spans from `si` on.
  unfoldable pub position_from : List (List A) → List (List A) → ℕ → ℕ → Position
  position_from spans [] si pos = if pos == 0 then position (end spans) else out_of_range
  position_from spans (s ∷ rest) si pos =
      let next = position_from spans rest (si + 1) (pos - length s) in
      if ltb pos (length s) then position (iterator spans si pos) else next

  unfoldable pub iterator_at : List (List A) → ℕ → Position
  iterator_at spans pos = position_from spans spans 0 pos

  unfoldable pub size : List (List A) → ℕ
  size [] = 0
  size (s ∷ spans) = length s + size spans

  unfoldable pub is_empty : List (List A) → Bool
  is_empty spans = size spans == 0

  unfoldable pub vector_count : List (List A) → ℕ
  vector_count spans = length spans

unfoldable pub equal : Iterator → Iterator → Bool
equal a b = (a.span_idx == b.span_idx) && (a.elem_idx == b.elem_idx)

module _ {ℓ} {A : Type ℓ} where
  -- A loop from an iterator to the end: what it visits. `none` is also that the fuel ran out.
  unfoldable pub visit : ℕ → List (List A) → Iterator → Option (List A)
  visit zero spans it = none
  visit (suc fuel) spans it = elim (equal it (end spans)) [
    | true ↦ some []
    | false ↦ do
      x ← dereference spans it
      it' ← advance spans it
      rest ← visit fuel spans it'
      some (x ∷ rest)
  ]
