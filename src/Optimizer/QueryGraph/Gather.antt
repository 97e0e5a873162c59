-- ===== src/Optimizer/QueryGraph/Gather.antt =====
-- The classes that a side of `hasJoinEdge` gathers from the sets of its relations.
use fact_db.Prelude.{
  ℕ, ◌<◌, ◌≡◌, ◌↔◌, refl, sym, ◌∙◌, Bool, true, false, Option, some, List, [], ◌∷◌, arith, ◌>>=◌,
  >>=-eq-some, length, get_elem?, All, Bool-cases, inl, inr, some_injective, get_elem?-of_lt,
  All-get_elem?,
}
use mathlib.Core.Path.{subst}
use fact_db.BitSet.Word.{BitSet64, IsWord, union, contains, to_list, empty_set, does_intersect_with}
use fact_db.BitSet.Word.Members.{contains-union, operators-IsWord, contains-test_bit}
use fact_db.BitSet.Word.Each.{All-to_list, All-to_list_at, does_intersect_with-contains}
use fact_db.Prelude.Bits.{test_bit-zero}
use fact_db.BitSet.Var.{BitSetVar, zip_words, all_words}
use fact_db.BitSet.Var
use fact_db.BitSet.Var.OneWord.{contains_word, union_word, does_intersect_with_word}
use fact_db.Optimizer.QueryGraph.{QueryGraph, gather}

-- A set of fewer than 64 classes is one word.
abbrev pub OneWord : BitSetVar → Type 0
OneWord s = (w : BitSet64) × (s.sets ≡ w ∷ []) × IsWord w

-- The set of the relation contains the class.
abbrev pub Has : List BitSetVar → ℕ → ℕ → Type 0
Has classes rel c =
    (s : BitSetVar) × (get_elem? classes rel ≡ some s) × (Var.contains s c ≡ some true)

-- One of the two loops that `gather` runs at once.
pub unite_sets : List BitSetVar → BitSetVar → List ℕ → Option BitSetVar
unite_sets classes s [] = some s
unite_sets classes s (rel ∷ rels) = do
  t ← get_elem? classes rel
  s' ← Var.union s t
  unite_sets classes s' rels

pub gather-unite_sets :
    (graph : QueryGraph) (all strong all' strong' : BitSetVar) (rels : List ℕ)
    → unite_sets graph.relations2equiv_classes all rels ≡ some all'
    → unite_sets graph.relations2strong_equiv_classes strong rels ≡ some strong'
    → gather graph all strong rels ≡ some (all', strong')
unfolding gather unite_sets
gather-unite_sets graph all strong all' strong' [] h k = ground arith
gather-unite_sets graph all strong all' strong' (rel ∷ rels) h k =
    let (t, et, h1) = >>=-eq-some (get_elem? graph.relations2equiv_classes rel) _ h in
    let (s, es, h2) = >>=-eq-some (Var.union all t) _ h1 in
    let (t', et', k1) = >>=-eq-some (get_elem? graph.relations2strong_equiv_classes rel) _ k in
    let (s', es', k2) = >>=-eq-some (Var.union strong t') _ k1 in
    rw (et, ◌>>=◌, es, et', es') (gather-unite_sets graph s s' all' strong' rels h2 k2)

-- What uniting the sets of some relations with the word `a` gives: a word that contains a class if
-- `a` or one of the sets does, and only then.
record Gathers (classes : List BitSetVar) (a : BitSet64) (rels : List ℕ) (s : BitSetVar)
    : Type 1 where
  word : BitSet64
  one : s.sets ≡ word ∷ []
  is_word : IsWord word
  grows : (c : ℕ) → contains a c ≡ true → contains word c ≡ true
  takes : (c : ℕ) → All (λ rel. Has classes rel c → contains word c ≡ true) rels
  only :
      (c : ℕ) (Q : Type 0)
      → (contains a c ≡ true → Q)
      → All (λ rel. Has classes rel c → Q) rels
      → contains word c ≡ true
      → Q

unite_sets-Gathers :
    (classes : List BitSetVar) (s : BitSetVar) (a : BitSet64) (rels : List ℕ)
    → All OneWord classes
    → s.sets ≡ a ∷ []
    → IsWord a
    → All (λ rel. rel < length classes) rels
    → (s' : BitSetVar) × (unite_sets classes s rels ≡ some s') × Gathers classes a rels s'
unfolding unite_sets
unite_sets-Gathers classes s a [] words e wa all = (
  s,
  refl,
  record {
    word = a;
    one = e;
    is_word = wa;
    grows = λ c h. h;
    takes = λ c. tt;
    only = λ c Q first rest h. first h;
  },
)
unite_sets-Gathers classes s a (rel ∷ rels) words e wa (lt, all) =
    let (t, g) = get_elem?-of_lt classes rel lt in
    let (b, f, wb) = All-get_elem? OneWord classes rel words g in
    let (s', run, rest) =
      unite_sets-Gathers classes (record { sets = union a b ∷ [] }) (union a b) rels words refl
        (operators-IsWord a b wa wb).0 all in
    let inside : (c : ℕ) → Has classes rel c → contains b c ≡ true = λ c (t', g', h).
      (contains_word t b c f).0
        (subst (λ (q : BitSetVar). Var.contains q c ≡ some true) (some_injective (sym g' ∙ g)) h) in
    (
      s',
      rw (g, ◌>>=◌, union_word s t a b e f) run,
      record {
        word = rest.word;
        one = rest.one;
        is_word = rest.is_word;
        grows = λ c h. rest.grows c (contains-union a b c ∙ rw h);
        takes = λ c. (
          λ has. rest.grows c (contains-union a b c ∙ ground (arith, inside c has)),
          rest.takes c,
        );
        only = λ c Q first (here, others) h.
            rest.only c Q
              (λ u. elim (Bool-cases (contains a c)) [
                | inl yes_a ↦ first yes_a
                | inr no_a ↦
                    here (t, g, (contains_word t b c f).1 (ground (arith, contains-union a b c)))
              ])
              others h;
      },
    )

-- A relation of the side has the class.
abbrev pub Offers : List BitSetVar → BitSet64 → ℕ → Type 0
Offers classes side c = (rel : ℕ) × (contains side rel ≡ true) × Has classes rel c

pub nothing_in_empty : (c : ℕ) → contains empty_set c ≡ false
unfolding empty_set
nothing_in_empty c = ground (arith, contains-test_bit empty_set c, test_bit-zero c)

pub empty-IsWord : IsWord empty_set
unfolding empty_set
empty-IsWord = omega arith

-- The union of the sets of a side's relations.
pub record IsSide (classes : List BitSetVar) (side : BitSet64) (s : BitSetVar) : Type 0 where
  word : BitSet64
  one : s.sets ≡ word ∷ []
  is_word : IsWord word
  offers : (c : ℕ) → (contains word c ≡ true) ↔ Offers classes side c

pub unite_sets-IsSide :
    (classes : List BitSetVar) (s : BitSetVar) (side : BitSet64)
    → All OneWord classes
    → s.sets ≡ empty_set ∷ []
    → IsWord side
    → ((i : ℕ) → contains side i ≡ true → i < length classes)
    → (s' : BitSetVar) × (unite_sets classes s (to_list side) ≡ some s') × IsSide classes side s'
unite_sets-IsSide classes s side words e w below =
    let (s', run, g) =
      unite_sets-Gathers classes s empty_set (to_list side) words e empty-IsWord
        (All-to_list (λ rel. rel < length classes) side w below) in
    (
      s',
      run,
      record {
        word = g.word;
        one = g.one;
        is_word = g.is_word;
        offers = λ c. (
          g.only c (Offers classes side c) (λ h. absurd (ground (arith, nothing_in_empty c)))
              (All-to_list (λ rel. Has classes rel c → Offers classes side c) side w
                (λ rel member has. (rel, member, has))),
          λ (rel, member, has).
              All-to_list_at (λ i. Has classes i c → contains g.word c ≡ true) side rel w
                (g.takes c) member has,
        );
      },
    )

-- Both sides have a class.
abbrev pub Shares : List BitSetVar → BitSet64 → BitSet64 → Type 0
Shares classes left right = (c : ℕ) × Offers classes left c × Offers classes right c

pub intersects-Shares :
    (classes : List BitSetVar) (left right : BitSet64) (s t : BitSetVar)
    → IsSide classes left s
    → IsSide classes right t
    → (ans : Bool) × (Var.does_intersect_with s t ≡ some ans)
      × ((ans ≡ true) ↔ Shares classes left right)
intersects-Shares classes left right s t a b = (
  does_intersect_with a.word b.word,
  does_intersect_with_word s t a.word b.word a.one b.one,
  (
    λ h.
        let (c, x, y) = (does_intersect_with-contains a.word b.word a.is_word).0 h in
        (c, (a.offers c).0 x, (b.offers c).0 y),
    λ (c, x, y).
        (does_intersect_with-contains a.word b.word a.is_word).1
          (c, (a.offers c).1 x, (b.offers c).1 y),
  ),
)
