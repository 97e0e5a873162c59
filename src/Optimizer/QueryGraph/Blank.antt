-- ===== src/Optimizer/QueryGraph/Blank.antt =====
-- The tables that `prepareForOptimization` starts from, and its last loops, which group columns.
use fact_db.Prelude.{
  ℕ, zero, suc, ◌≡◌, refl, sym, ap, true, some, List, [], ◌∷◌, arith, length, get_elem?, All,
  some_injective,
}
use fact_db.BitSet.Word.{empty_set}
use fact_db.BitSet.Word
use fact_db.BitSet.Var.{BitSetVar}
use fact_db.BitSet.Var.OneWord.{contains_word}
use fact_db.Optimizer.QueryGraph.Gather.{OneWord, Has, nothing_in_empty, empty-IsWord}
use fact_db.Optimizer.QueryGraph.Placing.{Table}
use fact_db.Optimizer.QueryGraph.Classes.{resize}

pub All-each {ℓ κ} :
    {A : Type ℓ} (P : A → Type κ) (xs : List A)
    → ((n : ℕ) (x : A) → get_elem? xs n ≡ some x → P x)
    → All P xs
All-each P [] h = tt
All-each P (x ∷ xs) h = (h 0 x refl, All-each P xs (λ n. h (suc n)))

-- Sets without a class.
abbrev pub no_class : BitSetVar
no_class = record { sets = empty_set ∷ [] }

no_class-Has : (n rel c : ℕ) → ¬ Has (resize [] n no_class) rel c
unfolding resize
no_class-Has zero rel c (s, g, h) = absurd (cc)
no_class-Has (suc n) zero c (s, g, h) =
    let inside : fact_db.BitSet.Word.contains empty_set c ≡ true =
      (contains_word s empty_set c (ap (λ (q : BitSetVar). q.sets) (sym (some_injective g)))).0 h in
    absurd (ground (arith, nothing_in_empty c))
no_class-Has (suc n) (suc rel) c has = no_class-Has n rel c has

pub length-resize {ℓ} : {A : Type ℓ} (n : ℕ) (v : A) → length (resize [] n v) ≡ n
unfolding resize
length-resize zero v = refl
length-resize (suc n) v = ap suc (length-resize n v)

resize-OneWord : (n : ℕ) → All OneWord (resize [] n no_class)
unfolding resize
resize-OneWord zero = tt
resize-OneWord (suc n) = ((empty_set, refl, empty-IsWord), resize-OneWord n)

pub resize-Table : (P : ℕ → ℕ → Type 0) (n : ℕ) → Table P n (resize [] n no_class)
resize-Table P n = record {
  one = resize-OneWord n;
  sized = length-resize n no_class;
  only = λ rel c has. absurd (no_class-Has n rel c has);
}
