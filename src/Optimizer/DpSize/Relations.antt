-- ===== src/Optimizer/DpSize/Relations.antt =====
-- The plan that `DPSize` returns, read as a tree: what it joins.
use fact_db.Prelude.{
  ℕ, zero, suc, ◌+◌, ◌≤◌, ◌≡◌, refl, sym, ap, ◌∙◌, Bool, true, false, Option, none, inl, inr, some,
  List, [], ◌∷◌, get_elem?, if◌then◌else◌, ◌>>=◌, Bool-cases, arith, ◌==◌,
}
use mathlib.Core.Path.{subst}
use fact_db.BitSet.Word.{BitSet64, IsWord, from_list, union, contains, does_intersect_with, size}
use fact_db.BitSet.Word.Members.{contains-union, does_intersect_with-false_iff}
use fact_db.BitSet.Word.Size.{size-union, size-pos}
use fact_db.BitSet.Word.Single.{contains-single}
use fact_db.Optimizer.Plans.{Plan, PlanType, base_table, join, JoinMode}
use fact_db.Optimizer.Plans.Valid.{Covers, CoversType, CoversJoin, AllPlans}

-- A join tree: what the pointers of a plan spell out.
pub data JoinTree : Type 0 where
  leaf : ℕ → JoinTree
  node : JoinTree → JoinTree → JoinTree

-- How often a relation stands in the tree.
unfoldable pub occurrences : ℕ → JoinTree → ℕ
occurrences v (leaf r) = if v == r then 1 else 0
occurrences v (node l r) = occurrences v l + occurrences v r

-- The tree joins the relations of the set; the two sides of each of its joins are disjoint and have
-- an edge between them.
unfoldable pub Joins : (BitSet64 → BitSet64 → Bool) → JoinTree → BitSet64 → Type 0
Joins has_join_edge (leaf r) s = from_list (r ∷ []) ≡ some s
Joins has_join_edge (node l r) s =
    (a b : BitSet64) × Joins has_join_edge l a
    × Joins has_join_edge r b
    × (does_intersect_with a b ≡ false)
    × (has_join_edge a b ≡ true)
    × (s ≡ union a b)

module _ {E : Type 0} where
  -- The tree behind a pointer, of at most `fuel` levels.
  unfoldable pub tree_of : ℕ → List (Plan E) → ℕ → Option JoinTree
  tree_of zero plans p = none
  tree_of (suc fuel) plans p = elim (get_elem? plans p) [
    | none ↦ none
    | some plan ↦ elim plan.type [
      | base_table v ↦ some (leaf v)
      | join l r mode ↦ do
        left ← tree_of fuel plans l
        right ← tree_of fuel plans r
        some (node left right)
    ]
  ]

-- How often a set holds a relation.
abbrev once_in : BitSet64 → ℕ → ℕ
once_in s v = if contains s v then 1 else 0

once_in-union :
    (a b : BitSet64) (v : ℕ)
    → IsWord a
    → does_intersect_with a b ≡ false
    → once_in a v + once_in b v ≡ once_in (union a b) v
once_in-union a b v word disjoint =
    let apart = (does_intersect_with-false_iff a b word).0 disjoint v in
    elim (Bool-cases (contains a v)) [
      | inl e ↦ ground (arith, contains-union a b v, apart e)
      | inr e ↦ ground (arith, contains-union a b v)
    ]

module _ {E : Type 0} (has_join_edge : BitSet64 → BitSet64 → Bool) where
  pub record IsTreeOf (s : BitSet64) (fuel : ℕ) (plans : List (Plan E)) (p : ℕ) : Type 0 where
    pub tree : JoinTree
    pub reads : tree_of fuel plans p ≡ some tree
    pub joins : Joins has_join_edge tree s
    pub once : (v : ℕ) → occurrences v tree ≡ (if contains s v then 1 else 0)

  IsTreeOf-leaf :
      (fuel : ℕ) (plans : List (Plan E)) (p v : ℕ) (plan : Plan E)
      → get_elem? plans p ≡ some plan
      → plan.type ≡ base_table v
      → from_list (v ∷ []) ≡ some plan.covered_relations
      → IsTreeOf plan.covered_relations (suc fuel) plans p
  unfolding tree_of Joins occurrences
  IsTreeOf-leaf fuel plans p v plan at is_base single = record {
    tree = leaf v;
    reads = rw (tree_of, at, is_base);
    joins = single;
    once =
        λ i. ap (λ b. if b then 1 else 0) (sym (contains-single v i plan.covered_relations single));
  }

  IsTreeOf-node :
      (fuel : ℕ) (plans : List (Plan E)) (p l r : ℕ) (mode : JoinMode) (plan : Plan E)
      → get_elem? plans p ≡ some plan
      → plan.type ≡ join l r mode
      → (j : CoversJoin has_join_edge plans plan.covered_relations l r) → IsWord j.left_set
      → IsTreeOf j.left_set fuel plans l
      → IsTreeOf j.right_set fuel plans r
      → IsTreeOf plan.covered_relations (suc fuel) plans p
  unfolding tree_of Joins occurrences
  IsTreeOf-node fuel plans p l r mode plan at is_join j word left right = record {
    tree = node left.tree right.tree;
    reads = rw (tree_of, at, is_join, left.reads, right.reads);
    joins = (j.left_set, j.right_set, left.joins, right.joins, j.disjoint, j.has_edge, j.union_of);
    once = λ v. rw j.union_of (
        omega (
          arith,
          left.once v,
          right.once v,
          once_in-union j.left_set j.right_set v word j.disjoint,
        ));
  }

  IsWord-Covers :
      (plans : List (Plan E)) (p : ℕ) (s : BitSet64)
      → AllPlans has_join_edge plans
      → Covers plans p s
      → IsWord s
  IsWord-Covers plans p s all (plan, at, covers) =
      subst (λ x. IsWord x) covers (all p plan at).is_word

  IsTreeOf-CoversType :
      (fuel : ℕ) (plans : List (Plan E)) (p : ℕ) (plan : Plan E)
      → AllPlans has_join_edge plans
      → get_elem? plans p ≡ some plan
      → (t : PlanType) → plan.type ≡ t
      → CoversType has_join_edge plans plan.covered_relations t
      → size plan.covered_relations ≤ suc fuel
      → ((q : ℕ) (x : BitSet64) → Covers plans q x → size x ≤ fuel → IsTreeOf x fuel plans q)
      → IsTreeOf plan.covered_relations (suc fuel) plans p
  IsTreeOf-CoversType fuel plans p plan all at (base_table v) is_base single small ih =
      IsTreeOf-leaf fuel plans p v plan at is_base single
  IsTreeOf-CoversType fuel plans p plan all at (join l r mode) is_join j small ih =
      let left_word = IsWord-Covers plans l j.left_set all j.left_covers in
      let right_word = IsWord-Covers plans r j.right_set all j.right_covers in
      let sum : size plan.covered_relations ≡ size j.left_set + size j.right_set =
        ap size j.union_of ∙ size-union j.left_set j.right_set j.disjoint in
      let left_some = size-pos j.left_set left_word j.left_some in
      let right_some = size-pos j.right_set right_word j.right_some in
      IsTreeOf-node fuel plans p l r mode plan at is_join j left_word
        (ih l j.left_set j.left_covers (omega arith))
        (ih r j.right_set j.right_covers (omega arith))

  -- A pointer to a plan over a set is the root of a tree that joins the set, of at most as many
  -- levels as the set has relations.
  pub Covers-IsTreeOf :
      (fuel : ℕ) (plans : List (Plan E)) (p : ℕ) (s : BitSet64)
      → AllPlans has_join_edge plans
      → Covers plans p s
      → size s ≤ fuel
      → IsTreeOf s fuel plans p
  Covers-IsTreeOf zero plans p s all (plan, at, covers) small =
      let v = all p plan at in
      absurd (omega (arith, size-pos plan.covered_relations v.is_word v.covers, ap size covers))
  Covers-IsTreeOf (suc fuel) plans p s all (plan, at, covers) small =
      let v = all p plan at in
      subst (λ x. IsTreeOf x (suc fuel) plans p) covers
        (IsTreeOf-CoversType fuel plans p plan all at plan.type refl v.built
          (omega (arith, ap size covers)) (λ q x c k. Covers-IsTreeOf fuel plans q x all c k))
