-- ===== src/Optimizer/DpSize/Rows.antt =====
-- The rows of `sizes`: which problems stand in them.
use fact_db.Prelude.{
  ne_of_test, ℕ, ◌<◌, ◌≡◌, refl, sym, ap, ◌∙◌, ◌⊎◌, inl, inr, some, List, [], ◌∷◌, ◌++◌, length,
  length-set, get_elem?, get_elem?-of_lt, get_elem?-set_self, get_elem?-set_ne, set, All,
  All-append_one, All-mono, some_injective, Bool-cases, ◌==◌, ==_iff,
}
use mathlib.Core.Path.{subst}
use fact_db.BitSet.Word.{BitSet64, size}
use fact_db.Optimizer.DpSize.{PlanMap}
use fact_db.Optimizer.DpSize.Table.{Known}
use fact_db.Optimizer.DpSize.Search.{Sizes, push}

abbrev pub Among : BitSet64 → List BitSet64 → Type 0
Among x [] = ⊥
Among x (y ∷ problems) = (y ≡ x) ⊎ Among x problems

-- A problem of a row: it has a plan, and the row's number of relations.
abbrev pub Listed : PlanMap → ℕ → BitSet64 → Type 0
Listed m i x = Known m x × (size x ≡ i)

abbrev pub Rows : PlanMap → Sizes → Type 0
Rows m sizes = (i : ℕ) (row : List BitSet64) → get_elem? sizes i ≡ some row → All (Listed m i) row

abbrev pub InRow : Sizes → BitSet64 → Type 0
InRow sizes x = (row : List BitSet64) × (get_elem? sizes (size x) ≡ some row) × Among x row

pub Rows-mono :
    (m m' : PlanMap) (sizes : Sizes)
    → ((x : BitSet64) → Known m x → Known m' x)
    → Rows m sizes
    → Rows m' sizes
Rows-mono m m' sizes known rows i row at =
    All-mono (Listed m i) (Listed m' i) row (λ x (k, e). (known x k, e)) (rows i row at)

Among-append : (x y : BitSet64) (row : List BitSet64) → Among x row → Among x (row ++ y ∷ [])
Among-append x y [] h = absurd h
Among-append x y (z ∷ row) (inl e) = inl e
Among-append x y (z ∷ row) (inr h) = inr (Among-append x y row h)

Among-append_last : (y : BitSet64) (row : List BitSet64) → Among y (row ++ y ∷ [])
Among-append_last y [] = inl refl
Among-append_last y (z ∷ row) = inr (Among-append_last y row)

-- The rows after a push.
pub record Pushed (m : PlanMap) (sizes : Sizes) (i : ℕ) (x : BitSet64) : Type 0 where
  pub after : Sizes
  pub ran : push sizes i x ≡ some after
  pub same_length : length after ≡ length sizes
  pub problems : Rows m after
  pub kept : (y : BitSet64) → InRow sizes y → InRow after y
  pub new : InRow after x

pub push_lem :
    (m : PlanMap) (sizes : Sizes) (i : ℕ) (x : BitSet64)
    → i < length sizes
    → Rows m sizes
    → Listed m i x
    → Pushed m sizes i x
unfolding push
push_lem m sizes i x h rows (known, total) =
    let (row, at) = get_elem?-of_lt sizes i h in
    let row' = row ++ x ∷ [] in
    let self = get_elem?-set_self sizes i row' h in
    record {
      after = set sizes i row';
      ran = rw at refl;
      same_length = length-set sizes i row';
      problems = λ j r at'. elim (Bool-cases (i == j)) [
        | inl e ↦
            let here : i ≡ j = (==_iff i j).0 e in
            let same : row' ≡ r =
              some_injective (sym self ∙ ap (get_elem? (set sizes i row')) here ∙ at') in
            subst (λ k. All (Listed m k) r) here
              (subst (All (Listed m i)) same
                (All-append_one (Listed m i) row x (rows i row at) (known, total)))
        | inr ne ↦ rows j r (sym (get_elem?-set_ne sizes i j row' (ne_of_test i j ne)) ∙ at')
      ];
      kept = λ y (r, at', among). elim (Bool-cases (i == size y)) [
        | inl e ↦
            let here : i ≡ size y = (==_iff i (size y)).0 e in
            let same : r ≡ row = some_injective (sym at' ∙ ap (get_elem? sizes) (sym here) ∙ at) in
            (
              row',
              ap (get_elem? (set sizes i row')) (sym here) ∙ self,
              Among-append y x row (subst (Among y) same among),
            )
        | inr ne ↦
            (r, get_elem?-set_ne sizes i (size y) row' (ne_of_test i (size y) ne) ∙ at', among)
      ];
      new = (row', ap (get_elem? (set sizes i row')) total ∙ self, Among-append_last x row);
    }
