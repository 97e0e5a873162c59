-- ===== src/Optimizer/QueryGraph/Placing.antt =====
-- The loops of `prepareForOptimization` that put the classes of the columns into the sets of their
-- relations.
use fact_db.Prelude.{
  ℕ, ◌<◌, ◌≡◌, ◌≢◌, refl, sym, ◌∙◌, ap, true, some, List, [], ◌∷◌, arith, ◌>>=◌, length, get_elem?,
  get_elem?-of_lt, get_elem?-set_self, get_elem?-set_ne, length-set, set, All, All-get_elem?,
  All-set, some_injective, ℕ_discrete,
}
use mathlib.Core.Path.{subst}
use fact_db.BitSet.Word.{BitSet64}
use fact_db.BitSet.Word
use fact_db.BitSet.Var.{BitSetVar}
use fact_db.BitSet.Var
use fact_db.BitSet.Var.OneWord.{contains_word, insert-IsWord}
use fact_db.UnionFind.Values.{ValueUnionFind, find_const}
use fact_db.Optimizer.QueryGraph.Gather.{OneWord, Has}
use fact_db.Optimizer.QueryGraph.Classes.{insert_class}

-- A set of classes for each of `n` relations, in which a class is only if `P` says so.
pub record Table (P : ℕ → ℕ → Type 0) (n : ℕ) (classes : List BitSetVar) : Type 0 where
  pub one : All OneWord classes
  pub sized : length classes ≡ n
  pub only : (rel c : ℕ) → Has classes rel c → P rel c

-- No class is lost.
abbrev pub Keeps : List BitSetVar → List BitSetVar → Type 0
Keeps classes classes' = (rel c : ℕ) → Has classes rel c → Has classes' rel c

pub insert_class-Table :
    (P : ℕ → ℕ → Type 0) (n : ℕ) (classes : List BitSetVar) (relation : ℕ) (ius : ValueUnionFind)
    (iu c : ℕ)
    → Table P n classes
    → relation < n
    → find_const ius iu ≡ some c
    → c < 64
    → P relation c
    → (classes' : List BitSetVar) × (insert_class classes relation ius iu ≡ some classes')
      × Table P n classes'
      × Keeps classes classes'
      × Has classes' relation c
unfolding insert_class
insert_class-Table P n classes relation ius iu c table lt found small p =
    let (s, g) = get_elem?-of_lt classes relation (omega (arith, table.sized)) in
    let (w, e, word) = All-get_elem? OneWord classes relation table.one g in
    let (w', run, word', members) = insert-IsWord s w c e word small in
    let s' : BitSetVar = record { sets = w' ∷ [] } in
    let at : get_elem? (set classes relation s') relation ≡ some s' =
      get_elem?-set_self classes relation s' (omega (arith, table.sized)) in
    let other : (rel : ℕ)
        → relation ≢ rel
        → get_elem? (set classes relation s') rel ≡ get_elem? classes rel =
      λ rel ne. get_elem?-set_ne classes relation rel s' ne in
    (
      set classes relation s',
      rw (found, ◌>>=◌, g, run) refl,
      record {
        one = All-set OneWord classes relation s' table.one (w', refl, word');
        sized = length-set classes relation s' ∙ table.sized;
        only = λ rel d (t, gt, h). elim (ℕ_discrete relation rel) [
          | no ne ↦ table.only rel d (t, sym (other rel ne) ∙ gt, h)
          | yes same ↦
              let is : s' ≡ t =
                some_injective (sym at ∙ ap (get_elem? (set classes relation s')) same ∙ gt) in
              let inside : fact_db.BitSet.Word.contains w' d ≡ true =
                (contains_word s' w' d refl).0
                  (subst (λ q. Var.contains q d ≡ some true) (sym is) h) in
              subst (λ q. P q d) same
                (elim (ℕ_discrete d c) [
                  | yes new ↦ subst (P relation) (sym new) p
                  | no old ↦
                      table.only relation d
                        (s, g, (contains_word s w d e).1 (ground (arith, members d, old)))
                ])
        ];
      },
      λ rel d (t, gt, h). elim (ℕ_discrete relation rel) [
        | no ne ↦ (t, other rel ne ∙ gt, h)
        | yes same ↦
            let is : s ≡ t = some_injective (sym g ∙ ap (get_elem? classes) same ∙ gt) in
            let inside : fact_db.BitSet.Word.contains w d ≡ true =
              (contains_word s w d e).0 (subst (λ q. Var.contains q d ≡ some true) (sym is) h) in
            (
              s',
              ap (get_elem? (set classes relation s')) (sym same) ∙ at,
              (contains_word s' w' d refl).1 (ground (arith, members d)),
            )
      ],
      (s', at, (contains_word s' w' c refl).1 (ground (arith, members c))),
    )
