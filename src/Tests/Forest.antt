-- ===== src/Tests/Forest.antt =====
-- UnionFind.hpp and UnionFind.cpp at concrete forests.
use fact_db.Prelude.{
  ℕ, ◌≡◌, ◌↔◌, ◌<◌, sym, ap, some_injective, refl, Bool, true, Option, some, [], ◌∷◌, arith, ◌>>=◌,
  ◌∙◌, length,
}
use fact_db.UnionFind.{
  Elements, new, find, find_const, union_sets, link, climb, compress, rounds, optimize_access_paths,
  is_single_set, merge,
}
use mathlib.Core.Path.{subst}
use fact_db.UnionFind.Paths.{Reaches, IsValid}
use fact_db.UnionFind.Closure.{Closure, Same}
use fact_db.UnionFind.Merge.{EitherSame, merge-Joins}
use fact_db.UnionFind.Find.{Keeps, Near, find-Keeps}
use fact_db.UnionFind.Union.{Unites, union_sets-Unites}
use fact_db.UnionFind.Queries.{new-IsValid, Verdict, optimize_access_paths-Near, is_single_set_lem}

program : Unit {0}
unfolding new find find_const union_sets link climb compress rounds optimize_access_paths
    is_single_set merge
program = tt

-- 0 and 1 are joined, 2 and 3, and then 0 and 2: element 3 is two steps from its root.
abbrev steps : Option (ℕ × Elements)
steps = union_sets (new 4) 0 1 >>= λ a. union_sets a.1 2 3 >>= λ b. union_sets b.1 0 2

abbrev joined : Elements
joined =
    record { representative = 0; rank = 2 }
    ∷ record { representative = 1; rank = 0 }
    ∷ record { representative = 1; rank = 1 }
    ∷ record { representative = 3; rank = 0 }
    ∷ []

steps_run : steps ≡ some (0, joined)
unfolding program
steps_run = refl

find_runs :
    find joined 3
    ≡ some (
      0,
      record { representative = 0; rank = 2 }
          ∷ record { representative = 1; rank = 0 }
          ∷ record { representative = 1; rank = 1 }
          ∷ record { representative = 1; rank = 0 }
          ∷ [],
    )
unfolding program
find_runs = refl

merge_runs : (merge joined (new 4) >>= λ r. is_single_set r.2 >>= λ q. some q.0) ≡ some true
unfolding program
merge_runs = refl

find-Keeps_example :
    (root : ℕ) × (es' : Elements) × (find (new 4) 3 ≡ some (root, es'))
    × (find_const (new 4) 3 ≡ some root)
    × Keeps (new 4) es'
    × ((k : ℕ) × Reaches (new 4) k 3 root)
find-Keeps_example = find-Keeps (new 4) 3 (new-IsValid 4) (unfold new in omega arith)

union_sets-Unites_example :
    (ret : ℕ) × (es' : Elements) × (union_sets (new 4) 1 3 ≡ some (ret, es'))
    × Unites (new 4) 1 3 ret es'
union_sets-Unites_example =
    union_sets-Unites (new 4) 1 3 (new-IsValid 4) (unfold new in omega arith)
      (unfold new in omega arith)

union_sets-IsValid :
    (es : Elements) (a b ret : ℕ) (es' : Elements)
    → IsValid es
    → a < length es
    → b < length es
    → union_sets es a b ≡ some (ret, es')
    → IsValid es'
union_sets-IsValid es a b ret es' v la lb h =
    let (r, out, run, u) = union_sets-Unites es a b v la lb in
    subst IsValid (ap (λ q. q.1) (some_injective (sym run ∙ h))) u.valid

abbrev one_pair : Elements
one_pair =
    record { representative = 0; rank = 1 }
    ∷ record { representative = 1; rank = 0 }
    ∷ record { representative = 0; rank = 0 }
    ∷ record { representative = 0; rank = 0 }
    ∷ []

abbrev two_pairs : Elements
two_pairs =
    record { representative = 0; rank = 1 }
    ∷ record { representative = 1; rank = 0 }
    ∷ record { representative = 0; rank = 1 }
    ∷ record { representative = 3; rank = 0 }
    ∷ []

joined-IsValid : IsValid joined
unfolding program
joined-IsValid =
    let one =
      union_sets-IsValid (new 4) 0 1 0 one_pair (new-IsValid 4) (omega arith) (omega arith) refl in
    let two = union_sets-IsValid one_pair 2 3 2 two_pairs one (omega arith) (omega arith) refl in
    union_sets-IsValid two_pairs 0 2 0 joined two (omega arith) (omega arith) refl

optimize_access_paths-Near_example :
    (es' : Elements) × (optimize_access_paths joined ≡ some es')
    × Keeps joined es'
    × ((j k r : ℕ) → Reaches joined k j r → Near es' j r)
optimize_access_paths-Near_example = optimize_access_paths-Near joined joined-IsValid

is_single_set_lem_example :
    (ans : Bool) × (es' : Elements) × (root : ℕ) × (is_single_set (new 2) ≡ some (ans, es'))
    × Keeps (new 2) es'
    × ((k : ℕ) × Reaches (new 2) k 0 root)
    × Verdict (new 2) 0 root ans
is_single_set_lem_example = is_single_set_lem (new 2) (new-IsValid 2) (unfold new in omega arith)

abbrev pairs : Elements
pairs =
    record { representative = 0; rank = 1 }
    ∷ record { representative = 1; rank = 0 }
    ∷ record { representative = 0; rank = 0 }
    ∷ []

pairs_run : (union_sets (new 3) 0 1 >>= λ r. some r.1) ≡ some pairs
unfolding program
pairs_run = refl

pairs-IsValid : IsValid pairs
unfolding program
pairs-IsValid =
    let (ret, es, run, u) =
      union_sets-Unites (new 3) 0 1 (new-IsValid 3) (unfold new in omega arith)
        (unfold new in omega arith) in
    subst IsValid (some_injective (ap (λ o. o >>= λ r. some r.1) (sym run))) u.valid

merge-Joins_example :
    (a' : Elements) × (b' : Elements) × (result : Elements) × (merge pairs (new 3)
      ≡ some (a', b', result))
    × Keeps pairs a'
    × Keeps (new 3) b'
    × IsValid result
    × ((i j : ℕ) → i < 3 → (Same result i j ↔ Closure (EitherSame pairs (new 3)) i j))
merge-Joins_example = merge-Joins pairs (new 3) pairs-IsValid (new-IsValid 3) (unfold new in refl)
