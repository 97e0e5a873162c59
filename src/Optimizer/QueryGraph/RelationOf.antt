-- ===== src/Optimizer/QueryGraph/RelationOf.antt =====
-- The map from columns to relations that the loops of `prepareForOptimization` fill.
use fact_db.Prelude.{
  ℕ, ◌≡◌, ◌↔◌, refl, sym, ◌∙◌, ap, true, some, List, [], ◌∷◌, arith, ◌==◌, >>=-eq-some, get_elem?,
  if◌then◌else◌, All, All-get_elem?, All-mono, some_injective, ℕ_discrete,
}
use mathlib.Core.Path.{subst}
use fact_db.UnionFind.Values.{contains, lookup}
use fact_db.Optimizer.QueryGraph.{QueryGraph}
use fact_db.Optimizer.QueryGraph.Unions.{All-from_get}
use fact_db.Optimizer.QueryGraph.Blank.{All-each}
use fact_db.Optimizer.QueryGraph.Classes.{
  insert_class, place_column, place_columns, place_conditions,
}

-- A join condition names the column.
abbrev pub Named : List (List ℕ) → ℕ → Type 0
Named infos iu =
    (i : ℕ) × (n : ℕ) × (ius : List ℕ) × (get_elem? infos i ≡ some ius)
    × (get_elem? ius n ≡ some iu)

module _ (table : ℕ → ℕ) (ids : List (ℕ × ℕ)) (S : ℕ → Type 0) where
  -- The map gives columns of `S` the number of their table.
  record Right (graph : QueryGraph) : Type 0 where
    ids_kept : graph.relation2id ≡ ids
    right :
        (iu rel : ℕ)
        → lookup graph.iu2relation iu ≡ some rel
        → S iu × (lookup ids (table iu) ≡ some rel)

  abbrev Knows : QueryGraph → ℕ → Type 0
  Knows graph iu = (rel : ℕ) × (lookup graph.iu2relation iu ≡ some rel)

  -- Nothing is lost, and the columns of the step are known.
  record Learns (graph graph' : QueryGraph) (ius : List ℕ) : Type 0 where
    right' : Right graph'
    kept : (iu : ℕ) → Knows graph iu → Knows graph' iu
    learnt : All (Knows graph') ius

  lookup-next :
      (m : List (ℕ × ℕ)) (iu rel v : ℕ)
      → (r : ℕ) × (lookup m v ≡ some r)
      → (r : ℕ) × (lookup ((iu, rel) ∷ m) v ≡ some r)
  unfolding lookup
  lookup-next m iu rel v (r, h) = elim (ℕ_discrete iu v) [
    | yes s ↦ (rel, ground arith)
    | no ne ↦ (r, ground (arith, ne))
  ]

  next-Right :
      (m : List (ℕ × ℕ)) (iu rel : ℕ)
      → S iu
      → lookup ids (table iu) ≡ some rel
      → ((v r : ℕ) → lookup m v ≡ some r → S v × (lookup ids (table v) ≡ some r))
      → (v r : ℕ) → lookup ((iu, rel) ∷ m) v ≡ some r
      → S v × (lookup ids (table v) ≡ some r)
  unfolding lookup
  next-Right m iu rel s named old v r h = elim (ℕ_discrete iu v) [
    | yes same ↦
        let test : (iu == v) ≡ true = ground arith in
        let number : rel ≡ r = ground (arith, test) in
        (subst S same s, ap (λ q. lookup ids (table q)) (sym same) ∙ named ∙ ap some number)
    | no ne ↦ old v r (ground (arith, ne))
  ]

  place_column-Learns :
      (graph graph' : QueryGraph) (iu : ℕ)
      → Right graph
      → S iu
      → place_column table graph iu ≡ some graph'
      → Learns graph graph' (iu ∷ [])
  unfolding place_column
  place_column-Learns graph graph' iu right s run =
      let (rel, named, h1) = >>=-eq-some (lookup graph.relation2id (table iu)) _ run in
      let (classes, _, h2) =
        >>=-eq-some (insert_class graph.relations2equiv_classes rel graph.equivalent_ius iu) _ h1 in
      let (strong, _, h3) =
        >>=-eq-some
          (if contains graph.inner_join_equivalent_ius iu
            then insert_class graph.relations2strong_equiv_classes rel
                graph.inner_join_equivalent_ius iu
            else some graph.relations2strong_equiv_classes)
          _ h2 in
      let same = some_injective h3 in
      let map : (iu, rel) ∷ graph.iu2relation ≡ graph'.iu2relation =
        ap (λ (q : QueryGraph). q.iu2relation) same in
      let ids_same : graph.relation2id ≡ graph'.relation2id =
        ap (λ (q : QueryGraph). q.relation2id) same in
      let named' : lookup ids (table iu) ≡ some rel =
        ap (λ q. lookup q (table iu)) (sym right.ids_kept) ∙ named in
      record {
        right' = record {
          ids_kept = sym ids_same ∙ right.ids_kept;
          right = λ v r h.
              next-Right graph.iu2relation iu rel s named' right.right v r
                (ap (λ q. lookup q v) map ∙ h);
        };
        kept = λ v known.
            let (r, h) = lookup-next graph.iu2relation iu rel v known in
            (r, ap (λ q. lookup q v) (sym map) ∙ h);
        learnt = ((rel, ap (λ q. lookup q iu) (sym map) ∙ unfold lookup in ground arith), tt);
      }

  place_columns-Learns :
      (graph graph' : QueryGraph) (ius : List ℕ)
      → Right graph
      → All S ius
      → place_columns table graph ius ≡ some graph'
      → Learns graph graph' ius
  unfolding place_columns
  place_columns-Learns graph graph' [] right s run =
      let same = some_injective run in
      record {
        right' = subst Right same right;
        kept = λ v. subst (λ q. Knows q v) same;
        learnt = tt;
      }
  place_columns-Learns graph graph' (iu ∷ ius) right (s, ss) run =
      let (one, first, rest) = >>=-eq-some (place_column table graph iu) _ run in
      let step = place_column-Learns graph one iu right s first in
      let steps = place_columns-Learns one graph' ius step.right' ss rest in
      record {
        right' = steps.right';
        kept = λ v h. steps.kept v (step.kept v h);
        learnt = (steps.kept iu step.learnt.0, steps.learnt);
      }

  place_conditions-Learns :
      (graph graph' : QueryGraph) (infos : List (List ℕ))
      → Right graph
      → All (All S) infos
      → place_conditions table graph infos ≡ some graph'
      → Right graph' × ((v : ℕ) → Knows graph v → Knows graph' v) × All (All (Knows graph')) infos
  unfolding place_conditions
  place_conditions-Learns graph graph' [] right s run =
      let same = some_injective run in
      (subst Right same right, λ v. subst (λ q. Knows q v) same, tt)
  place_conditions-Learns graph graph' (ius ∷ infos) right (s, ss) run =
      let (one, first, rest) = >>=-eq-some (place_columns table graph ius) _ run in
      let step = place_columns-Learns graph one ius right s first in
      let (right', kept, learnt) = place_conditions-Learns one graph' infos step.right' ss rest in
      (
        right',
        λ v h. kept v (step.kept v h),
        (All-mono (Knows one) (Knows graph') ius kept step.learnt, learnt),
      )

-- The map gives exactly the columns of the join conditions the numbers of their tables.
abbrev pub MapsColumns : (ℕ → ℕ) → List (ℕ × ℕ) → List (List ℕ) → List (ℕ × ℕ) → Type 0
MapsColumns table ids infos m =
    (iu rel : ℕ) → (lookup m iu ≡ some rel) ↔ (Named infos iu × (lookup ids (table iu) ≡ some rel))

pub place_conditions-MapsColumns :
    (table : ℕ → ℕ) (graph graph' : QueryGraph) (infos : List (List ℕ))
    → graph.iu2relation ≡ []
    → place_conditions table graph infos ≡ some graph'
    → MapsColumns table graph.relation2id infos graph'.iu2relation
place_conditions-MapsColumns table graph graph' infos blank run iu rel =
    let ids = graph.relation2id in
    let nothing : (v r : ℕ)
        → lookup graph.iu2relation v ≡ some r
        → Named infos v × (lookup ids (table v) ≡ some r) =
      λ v r h. absurd (unfold lookup in ground (arith, ap (λ q. lookup q v) blank)) in
    let (right, kept, learnt) =
      place_conditions-Learns table ids (Named infos) graph graph' infos
        (record { ids_kept = refl; right = nothing })
        (All-each _ infos (λ i ius g. All-from_get _ ius (λ n v at. (i, n, ius, g, at)))) run in
    (
      right.right iu rel,
      λ ((i, n, ius, g, at), named).
          let (r, h) = All-get_elem? _ ius n (All-get_elem? _ infos i learnt g) at in
          let (_, named') = right.right iu r h in h ∙ sym named' ∙ named,
    )
