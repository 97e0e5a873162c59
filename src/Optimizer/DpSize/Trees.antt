-- ===== src/Optimizer/DpSize/Trees.antt =====
-- What the search makes of the join trees: a claim about a tree and its problem that calls of
-- `createJoin` keep, and that a call makes of the claims about the two sides, holds at the end.
use fact_db.Prelude.{
  ℕ, suc, ◌+◌, ◌<◌, ◌≤◌, ◌≡◌, refl, Option, sym, ap, ◌∙◌, Bool, some, List, [], ◌∷◌, arith, ◌==◌,
  ==_iff, Bool-cases, ltb→lt, inl, inr, true,
}
use mathlib.Core.Bool.{or-true}
use mathlib.Core.Path.{subst}
use fact_db.BitSet.Word.{BitSet64, contains, union, from_list, from_range, size}
use fact_db.BitSet.Word.Size.{size-union, size-from_range}
use fact_db.BitSet.Word.Single.{contains-single, size-single}
use fact_db.BitSet.Word.Members.{contains-union, contains-from_range}
use fact_db.Optimizer.DpSize.{FlatPlan, DpSize, new}
use fact_db.Optimizer.DpSize.Table.{Known}
use fact_db.Optimizer.DpSize.Valid.{IsTable}
use fact_db.Optimizer.DpSize.Search.{Search, generate, bushy, linear}
use fact_db.Optimizer.DpSize.Pairs.{IsSearch, After, Succeeds, Joined}
use fact_db.Optimizer.DpSize.Sizes.{bushy-Succeeds, linear-Succeeds}
use fact_db.Optimizer.DpSize.Prepare.{smaller, Prepared}
use fact_db.Optimizer.DpSize.Run.{generate-IsTable}
use fact_db.Optimizer.DpSize.Relations.{JoinTree, leaf, node, Joins}
use fact_db.Optimizer.DpSize.Steps.{Call, Steps, stay, Steps-trans}

-- Every relation of the tree is below the bound.
abbrev pub Below : ℕ → JoinTree → Type 0
Below n (leaf r) = r < n
Below n (node l r) = Below n l × Below n r

-- A range that is made ends below the capacity.
below_capacity : (end : ℕ) (s : BitSet64) → from_range 0 end ≡ some s → end ≤ 64
unfolding from_range
below_capacity end s h = ground arith

below_range :
    (end : ℕ) (s : BitSet64) → from_range 0 end ≡ some s → (v : ℕ) → contains s v ≡ true → v < end
below_range end s h v is = ltb→lt v end (sym (contains-from_range 0 end s v h ∙ ground arith) ∙ is)

-- The right side of every join is one relation.
unfoldable pub IsLeftDeep : JoinTree → Type 0
IsLeftDeep (leaf r) = Unit {0}
IsLeftDeep (node l (leaf r)) = IsLeftDeep l
IsLeftDeep (node l (node a b)) = ⊥

pub IsLeftDeep-parts : (l r : JoinTree) → IsLeftDeep (node l r) → IsLeftDeep l × IsLeftDeep r
unfolding IsLeftDeep
IsLeftDeep-parts l (leaf r) deep = (deep, tt)
IsLeftDeep-parts l (node a b) deep = absurd deep

module _ (has_join_edge : BitSet64 → BitSet64 → Bool) (relations : ℕ) where
  Joins-pos : (t : JoinTree) (x : BitSet64) → Joins has_join_edge t x → 0 < size x
  unfolding Joins
  Joins-pos (leaf r) x single = omega (arith, size-single r x single)
  Joins-pos (node l r) x (a, b, left, right, disjoint, edge, union_of) =
      omega (arith, Joins-pos l a left, ap size union_of, size-union a b disjoint)

  Joins-Below :
      (t : JoinTree) (x : BitSet64)
      → Joins has_join_edge t x
      → ((v : ℕ) → contains x v ≡ true → v < relations)
      → Below relations t
  unfolding Joins
  Joins-Below (leaf r) x single bound = bound r (contains-single r r x single ∙ ground arith)
  Joins-Below (node l r) x (a, b, left, right, disjoint, edge, union_of) bound = (
    Joins-Below l a left (λ v h. bound v (rw union_of (rw (contains-union a b v) (rw h refl)))),
    Joins-Below r b right
        (λ v h. bound v (rw union_of (rw (contains-union a b v) (rw h (or-true (contains a v)))))),
  )

  right_side :
      (l r : JoinTree) (b : BitSet64) → IsLeftDeep (node l r) → Joins has_join_edge r b → size b ≡ 1
  unfolding IsLeftDeep Joins
  right_side l (leaf r) b deep single = size-single r b single
  right_side l (node a c) b deep joins = absurd deep

module _ (oracle : List FlatPlan → FlatPlan → ℕ) (has_join_edge : BitSet64 → BitSet64 → Bool)
    (relations : ℕ) where
  -- A claim about a tree and the problem that it joins.
  pub record Claim : Type 1 where
    pub Has : DpSize → JoinTree → BitSet64 → Type 0
    pub known : (dp : DpSize) (t : JoinTree) (x : BitSet64) → Has dp t x → Known dp.plan_map x
    pub single :
        (dp : DpSize) (r : ℕ) (x : BitSet64)
        → Prepared has_join_edge relations dp
        → r < relations
        → from_list (r ∷ []) ≡ some x
        → Has dp (leaf r) x
    pub keeps :
        (dp dp' : DpSize) (t : JoinTree) (x : BitSet64)
        → Steps oracle has_join_edge dp dp'
        → Has dp t x
        → Has dp' t x
    pub joins :
        (dp dp' : DpSize) (l r : JoinTree) (a b : BitSet64)
        → Call oracle has_join_edge dp a b dp'
        → has_join_edge a b ≡ true
        → Has dp l a
        → Has dp r b
        → Has dp' (node l r) (union a b)

  module _ (claim : Claim) (Shape : JoinTree → Type 0)
      (parts : (l r : JoinTree) → Shape (node l r) → Shape l × Shape r) where
    open claim use {Has, known, single, keeps, joins}

    -- The claim holds for the trees of the shape over fewer than `n` relations.
    record Solved (n : ℕ) (s : Search) : Type 0 where
      start : DpSize
      prepared : Prepared has_join_edge relations start
      steps : Steps oracle has_join_edge start s.dp
      trees :
          (t : JoinTree) (x : BitSet64)
          → Shape t
          → Joins has_join_edge t x
          → Below relations t
          → size x < n
          → Has s.dp t x

    -- The two sides of a tree of the shape have been joined if both have plans.
    abbrev pub JoinedTrees : ℕ → Search → Search → Type 0
    JoinedTrees cur_size s s' =
        (l r : JoinTree) (a b : BitSet64)
        → Shape (node l r)
        → Joins has_join_edge l a
        → Joins has_join_edge r b
        → Known s.dp.plan_map a
        → Known s.dp.plan_map b
        → size a + size b ≡ cur_size
        → Joined has_join_edge relations oracle a b s s'

    -- A tree over one relation is a leaf.
    Prepared-tree :
        (dp : DpSize)
        → Prepared has_join_edge relations dp
        → (t : JoinTree) (x : BitSet64) → Shape t
        → Joins has_join_edge t x
        → Below relations t
        → size x < 2
        → Has dp t x
    unfolding Joins
    Prepared-tree dp v (leaf r) x shape is below small = single dp r x v below is
    Prepared-tree dp v (node l r) x shape (a, b, left, right, disjoint, edge, union_of) below
          small =
        let sum : size x ≡ size a + size b = ap size union_of ∙ size-union a b disjoint in
        absurd (
          omega (
            arith,
            sum,
            Joins-pos has_join_edge relations l a left,
            Joins-pos has_join_edge relations r b right,
          ))

    -- A tree of the current size joins two trees of smaller sizes.
    After-tree :
        (cur_size : ℕ) (s s' : Search)
        → Solved cur_size s
        → After has_join_edge relations oracle s s'
        → JoinedTrees cur_size s s'
        → (t : JoinTree) (x : BitSet64) → Shape t
        → Joins has_join_edge t x
        → Below relations t
        → size x < suc cur_size
        → Has s'.dp t x
    unfolding Joins
    After-tree cur_size s s' c after joined (leaf r) x shape is below small =
        keeps c.start s'.dp (leaf r) x (Steps-trans oracle has_join_edge c.steps after.steps)
          (single c.start r x c.prepared below is)
    After-tree cur_size s s' c after joined (node l r) x shape
          (a, b, left, right, disjoint, edge, union_of) below small =
        let sum : size x ≡ size a + size b = ap size union_of ∙ size-union a b disjoint in
        let some_a = Joins-pos has_join_edge relations l a left in
        let some_b = Joins-pos has_join_edge relations r b right in
        let (shape_l, shape_r) = parts l r shape in
        elim (Bool-cases (size x == cur_size)) [
          | inl e ↦
              let has_a = c.trees l a shape_l left below.0 (omega (arith, sum)) in
              let has_b = c.trees r b shape_r right below.1 (omega (arith, sum)) in
              let v =
                joined l r a b shape left right (known s.dp l a has_a) (known s.dp r b has_b)
                  (sym sum ∙ (==_iff (size x) cur_size).0 e) disjoint in
              subst (Has s'.dp (node l r)) (sym union_of) (
                keeps v.after s'.dp (node l r) (union a b) v.goes_on (
                  joins v.before v.after l r a b v.visits edge
                    (keeps s.dp v.before l a v.leads has_a)
                    (keeps s.dp v.before r b v.leads has_b)))
          | inr ne ↦ keeps s.dp s'.dp (node l r) x after.steps (
              c.trees (node l r) x shape (a, b, left, right, disjoint, edge, union_of) below
                (smaller (size x) cur_size small ne))
        ]

    -- The table at the end of a run.
    pub record Searched (body : ℕ → Search → Option Search) (ctr : ℕ) (all : BitSet64)
        : Type 0 where
      pub dp : DpSize
      pub ran : generate oracle has_join_edge body relations (new ctr) ≡ some dp
      pub table : IsTable has_join_edge dp
      pub start : DpSize
      pub prepared : Prepared has_join_edge relations start
      pub steps : Steps oracle has_join_edge start dp
      pub trees : (t : JoinTree) → Shape t → Joins has_join_edge t all → Has dp t all

    -- The whole run, for a body that joins the trees of the shape.
    pub generate-Searched :
        (body : ℕ → Search → Option Search)
        → ((cur_size : ℕ) (s : Search)
            → 1 ≤ cur_size
            → cur_size ≤ relations
            → IsSearch has_join_edge relations s
            → Succeeds has_join_edge relations oracle (JoinedTrees cur_size s) s (body cur_size s))
        → (ctr : ℕ) (all : BitSet64) → 1 ≤ relations
        → from_range 0 relations ≡ some all
        → Searched body ctr all
    generate-Searched body ok ctr all pos range =
        let (s, ran, table, c) =
          generate-IsTable oracle has_join_edge Solved body relations ctr pos
            (below_capacity relations all range)
            (λ s v prepared. record {
              start = s.dp;
              prepared = prepared;
              steps = stay;
              trees = Prepared-tree s.dp prepared;
            })
            (λ cur_size s low high v c.
              let (s', ran, after, joined) = ok cur_size s low high v in
              (
                s',
                ran,
                after,
                record {
                  start = c.start;
                  prepared = c.prepared;
                  steps = Steps-trans oracle has_join_edge c.steps after.steps;
                  trees = After-tree cur_size s s' c after joined;
                },
              )) in
        record {
          dp = s.dp;
          ran = ran;
          table = table;
          start = c.start;
          prepared = c.prepared;
          steps = c.steps;
          trees = λ t shape joins.
              c.trees t all shape joins
                (Joins-Below has_join_edge relations t all joins (below_range relations all range))
                (omega (arith, size-from_range relations all range));
        }

  module _ (claim : Claim) (ctr : ℕ) (all : BitSet64) (pos : 1 ≤ relations)
      (range : from_range 0 relations ≡ some all) where
    -- The search over all trees, and the one over the left-deep trees.
    pub bushy-Searched :
        Searched claim (λ t. Unit {0}) (λ l r u. (tt, tt)) (bushy oracle has_join_edge) ctr all
    bushy-Searched =
        generate-Searched claim (λ t. Unit {0}) (λ l r u. (tt, tt)) _
          (λ cur_size s low high v.
            let (s', ran, after, joined) =
              bushy-Succeeds has_join_edge relations oracle cur_size s low high v in
            (
              s',
              ran,
              after,
              λ l r a b u left right known_a known_b.
                  joined a b known_a known_b (Joins-pos has_join_edge relations l a left)
                    (Joins-pos has_join_edge relations r b right),
            ))
          ctr all pos range

    pub linear-Searched :
        Searched claim IsLeftDeep IsLeftDeep-parts (linear oracle has_join_edge) ctr all
    linear-Searched =
        generate-Searched claim IsLeftDeep IsLeftDeep-parts _
          (λ cur_size s low high v.
            let (s', ran, after, joined) =
              linear-Succeeds has_join_edge relations oracle cur_size s low high v in
            (
              s',
              ran,
              after,
              λ l r a b deep left right known_a known_b.
                  joined a b known_a known_b (right_side has_join_edge relations l r b deep right),
            ))
          ctr all pos range
