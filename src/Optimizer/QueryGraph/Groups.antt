-- ===== src/Optimizer/QueryGraph/Groups.antt =====
-- The last loops of `prepareForOptimization`, which fill the map from classes to their columns.
use fact_db.Prelude.{
  ℕ, ◌≡◌, ◌↔◌, refl, sym, ◌∙◌, ap, true, some, List, [], ◌∷◌, arith, ◌>>=◌, length, get_elem?,
  get_elem?-of_lt, get_elem?-set_self, get_elem?-set_ne, get_elem?-lt, set, length-set, All,
  All-get_elem?, some_injective, ℕ_discrete, inl, inr, Option-cases, zero, suc,
}
use mathlib.Core.Path.{subst}
use fact_db.IuSet.{has, insert_iu}
use fact_db.IuSet.Laws.{has-insert_iu}
use fact_db.UnionFind.Closure.{Closure, Closure-IsEquivalence}
use fact_db.UnionFind.Values.{ValueUnionFind, contains, lookup, find_const, get_id_const}
use fact_db.UnionFind.Values.Related.{JoinsValues}
use fact_db.UnionFind.Values.Classes.{find_const-lt}
use fact_db.Optimizer.QueryGraph.Unions.{All-from_get}
use fact_db.Optimizer.QueryGraph.Classes.{resize, group_columns}
use fact_db.Optimizer.QueryGraph.Blank.{length-resize}

-- The set of the class contains the column.
abbrev pub Holds : List (List ℕ) → ℕ → ℕ → Type 0
Holds groups c iu = (ks : List ℕ) × (get_elem? groups c ≡ some ks) × (has ks iu ≡ true)

-- A step of the loop keeps the columns of all classes and adds one.
module _ (groups : List (List ℕ)) (c : ℕ) (ks : List ℕ) (g : get_elem? groups c ≡ some ks)
    (iu : ℕ) where
  next : List (List ℕ)
  next = set groups c (insert_iu ks iu)

  next_at : get_elem? next c ≡ some (insert_iu ks iu)
  unfolding next
  next_at = get_elem?-set_self groups c _ (get_elem?-lt groups c g)

  Holds-next : Holds next c iu
  Holds-next = (insert_iu ks iu, next_at, ground (arith, has-insert_iu ks iu iu))

  Holds-kept : (d v : ℕ) → Holds groups d v → Holds next d v
  unfolding next
  Holds-kept d v (l, h, inside) = elim (ℕ_discrete c d) [
    | no ne ↦ (l, get_elem?-set_ne groups c d _ ne ∙ h, inside)
    | yes s ↦
        let same : l ≡ ks = some_injective (sym h ∙ ap (get_elem? groups) (sym s) ∙ g) in
        let inside' : has ks v ≡ true = ap (λ q. has q v) (sym same) ∙ inside in
        (
          insert_iu ks iu,
          ap (get_elem? next) (sym s) ∙ next_at,
          ground (arith, has-insert_iu ks iu v),
        )
  ]

  Holds-only :
      (P : ℕ → ℕ → Type 0)
      → P c iu
      → ((d v : ℕ) → Holds groups d v → P d v)
      → (d v : ℕ) → Holds next d v
      → P d v
  unfolding next
  Holds-only P p old d v (l, h, inside) = elim (ℕ_discrete c d) [
    | no ne ↦ old d v (l, sym (get_elem?-set_ne groups c d _ ne) ∙ h, inside)
    | yes s ↦
        let same : l ≡ insert_iu ks iu =
          some_injective (sym h ∙ ap (get_elem? next) (sym s) ∙ next_at) in
        let inside' : has (insert_iu ks iu) v ≡ true = ap (λ q. has q v) (sym same) ∙ inside in
        subst (λ q. P q v) s
          (elim (ℕ_discrete v iu) [
            | yes t ↦ subst (P c) (sym t) p
            | no other ↦ old c v (ks, g, ground (arith, has-insert_iu ks iu v))
          ])
  ]

-- The classes with the columns that the loop has put into them.
record Groups (u : ValueUnionFind) (groups groups' : List (List ℕ)) (ius : List ℕ) : Type 0 where
  kept : (d v : ℕ) → Holds groups d v → Holds groups' d v
  only : (d v : ℕ) → Holds groups' d v → find_const u v ≡ some d
  put : All (λ iu. (c : ℕ) → find_const u iu ≡ some c → Holds groups' c iu) ius

group_columns-Groups :
    (E : ℕ → ℕ → Type 0) (u : ValueUnionFind) (groups : List (List ℕ)) (ius : List ℕ)
    → JoinsValues (Closure E) u
    → length groups ≡ length u.union_find
    → All (λ iu. contains u iu ≡ true) ius
    → ((d v : ℕ) → Holds groups d v → find_const u v ≡ some d)
    → (groups' : List (List ℕ)) × (group_columns u groups ius ≡ some groups')
      × Groups u groups groups' ius
unfolding group_columns
group_columns-Groups E u groups [] known l all own =
    (groups, refl, record { kept = λ d v h. h; only = own; put = tt })
group_columns-Groups E u groups (iu ∷ ius) known l (here, all) own =
    let (c, found, lt) = find_const-lt (Closure E) (Closure-IsEquivalence E) u iu known here in
    let (ks, g) = get_elem?-of_lt groups c (omega arith) in
    let one = set groups c (insert_iu ks iu) in
    let (groups', run, end) =
      group_columns-Groups E u one ius known (length-set groups c (insert_iu ks iu) ∙ l) all
        (unfold next in Holds-only groups c ks g iu (λ d v. find_const u v ≡ some d) found own) in
    let first : Holds one c iu = unfold next in Holds-next groups c ks g iu in
    let kept : (d v : ℕ) → Holds groups d v → Holds one d v =
      unfold next in Holds-kept groups c ks g iu in
    (
      groups',
      rw (found, ◌>>=◌, g) run,
      record {
        kept = λ d v h. end.kept d v (kept d v h);
        only = end.only;
        put = (
          λ d found'.
              subst (λ q. Holds groups' q iu) (some_injective (sym found ∙ found'))
                (end.kept c iu first),
          end.put,
        );
      },
    )

-- All values of a structure are known to it.
values-contained :
    (R : ℕ → ℕ → Type 0) (u : ValueUnionFind)
    → JoinsValues R u
    → All (λ iu. contains u iu ≡ true) u.id2type
unfolding contains
values-contained R u known =
    All-from_get (λ iu. contains u iu ≡ true) u.id2type
      (λ n iu g. rw (contains, known.index_of iu n g) refl)

resize-Holds : (n c iu : ℕ) → ¬ Holds (resize [] n []) c iu
unfolding resize has
resize-Holds zero c iu (ks, g, h) = absurd (cc)
resize-Holds (suc n) zero iu (ks, g, h) =
    let same : [] ≡ ks = some_injective g in absurd (ground (arith, ap (λ q. has q iu) same))
resize-Holds (suc n) (suc c) iu held = resize-Holds n c iu held

-- Each class has exactly the known columns that findConst puts into it.
abbrev pub Collects : ValueUnionFind → List (List ℕ) → Type 0
Collects u groups = (c iu : ℕ) → Holds groups c iu ↔ (find_const u iu ≡ some c)

pub group_columns-Collects :
    (E : ℕ → ℕ → Type 0) (u : ValueUnionFind)
    → JoinsValues (Closure E) u
    → (groups : List (List ℕ)) × (group_columns u (resize [] (length u.union_find) []) u.id2type
        ≡ some groups)
      × Collects u groups
unfolding find_const get_id_const
group_columns-Collects E u known =
    let n = length u.union_find in
    let (groups, run, end) =
      group_columns-Groups E u (resize [] n []) u.id2type known (length-resize n [])
        (values-contained (Closure E) u known) (λ d v h. absurd (resize-Holds n d v h)) in
    (
      groups,
      run,
      λ c iu. (
        end.only c iu,
        λ found. elim (Option-cases (lookup u.type2id iu)) [
          | inl e ↦ absurd (ground arith)
          | inr (id, e) ↦
              All-get_elem? (λ v. (d : ℕ) → find_const u v ≡ some d → Holds groups d v) u.id2type id
                end.put (known.value_of iu id e) c found
        ],
      ),
    )
