-- ===== src/BitSet/Var/Intersect.antt =====
-- The two comparing loops of `BitSetVar`, `isSubsetOf` and `doesIntersectWith`.
use fact_db.Prelude.{
  ℕ, zero, suc, ◌+◌, ◌-◌, ◌*◌, ◌/◌, ◌≤◌, ◌<◌, ◌≡◌, refl, sym, ◌∙◌, ap, Bool, true, false, some,
  List, [], ◌∷◌, length, get_elem?, arith, All, get_elem?-lt, some_injective, ◌↔◌, Bool-cases, inl,
  inr, get_elem?-of_lt,
}
use fact_db.BitSet.Word.{BitSet64, IsWord}
use fact_db.BitSet.Word.Each.{does_intersect_with-contains}
use fact_db.BitSet.Word
use fact_db.BitSet.Word.Members
use fact_db.BitSet.Var.{BitSetVar, count, all_words, is_subset_of, does_intersect_with}
use fact_db.BitSet.Var.Members.{count_inv, count_of, All-get_elem?}

-- The loop answers true exactly when every pair of words passes.
abbrev PairwisePasses : (BitSet64 → BitSet64 → Bool) → List BitSet64 → List BitSet64 → Type 0
PairwisePasses p xs ys =
    (i : ℕ) (m n : BitSet64) → get_elem? xs i ≡ some m → get_elem? ys i ≡ some n → p m n ≡ true

all_words_to :
    (p : BitSet64 → BitSet64 → Bool) (xs ys : List BitSet64)
    → all_words p xs ys ≡ some true
    → PairwisePasses p xs ys
unfolding all_words
all_words_to p [] ys h i m n em en = cc
all_words_to p (x ∷ xs) [] h i m n em en = cc
all_words_to p (x ∷ xs) (y ∷ ys) h zero m n em en = ground arith
all_words_to p (x ∷ xs) (y ∷ ys) h (suc i) m n em en =
    ground (arith, all_words_to p xs ys (ground arith) i m n)

all_words_from :
    (p : BitSet64 → BitSet64 → Bool) (xs ys : List BitSet64)
    → length xs ≤ length ys
    → PairwisePasses p xs ys
    → all_words p xs ys ≡ some true
unfolding all_words
all_words_from p [] ys l h = refl
all_words_from p (x ∷ xs) [] l h = elim l [ ]
all_words_from p (x ∷ xs) (y ∷ ys) l h =
    rw (h 0 x y refl refl) (all_words_from p xs ys (omega arith) (λ i. h (suc i)))

all_words_returns :
    (p : BitSet64 → BitSet64 → Bool) (xs ys : List BitSet64)
    → length xs ≤ length ys
    → (ans : Bool) × (all_words p xs ys ≡ some ans)
unfolding all_words
all_words_returns p [] ys l = (true, refl)
all_words_returns p (x ∷ xs) [] l = elim l [ ]
all_words_returns p (x ∷ xs) (y ∷ ys) l =
    let (ans, run) = all_words_returns p xs ys (omega arith) in
    elim (Bool-cases (p x y)) [ inl e ↦ (ans, rw e run) | inr e ↦ (false, rw e refl) ]

-- If isSubsetOf of BitSetVar answers true, every member of the set that lies in the capacity of
-- the other set is a member of the other set.
pub is_subset_of-members :
    (a b : BitSetVar) (v : ℕ) (y : Bool)
    → is_subset_of a b ≡ some true
    → count a v ≡ some true
    → count b v ≡ some y
    → y ≡ true
unfolding is_subset_of Word.contains
is_subset_of-members a b v y h ha hb =
    let (m, em, cm, lt) = count_inv a v _ ha in
    let (n, en, cn, lt') = count_inv b v _ hb in
    sym cn
    ∙ Members.is_subset_of_to m n
        (all_words_to Word.is_subset_of a.sets b.sets h (v / 64) m n em en) (v - v / 64 * 64) cm

below_word : (m : BitSet64) (v : ℕ) → Word.contains m v ≡ true → v < 64
below_word m v h = ground (arith, Members.contains-test_bit m v)

-- Between sets of the same number of words, those of the first of 64 bits, isSubsetOf of
-- BitSetVar answers true if every member of the first is a member of the second.
pub is_subset_of_complete :
    (a b : BitSetVar)
    → length a.sets ≡ length b.sets
    → All IsWord a.sets
    → ((v : ℕ) → count a v ≡ some true → count b v ≡ some true)
    → is_subset_of a b ≡ some true
unfolding is_subset_of Word.contains
is_subset_of_complete a b l words all =
    all_words_from Word.is_subset_of a.sets b.sets (omega arith) λ i m n em en.
      Members.is_subset_of_from m n (All-get_elem? IsWord a.sets i m words em) λ v cv.
        let lt : v < 64 = below_word m v cv in
        let il = get_elem?-lt a.sets i em in
        let slot : (i * 64 + v) / 64 ≡ i = omega arith in
        let place : i * 64 + v - (i * 64 + v) / 64 * 64 ≡ v = omega arith in
        let ha : count a (i * 64 + v) ≡ some true =
          count_of a (i * 64 + v) m (omega arith) (ap (get_elem? a.sets) slot ∙ em)
          ∙ rw place (ap some cv) in
        let (n', en', cn', lt') = count_inv b (i * 64 + v) true (all (i * 64 + v) ha) in
        let same : n' ≡ n = some_injective (sym en' ∙ ap (get_elem? b.sets) slot ∙ en) in
        ap (λ (q : BitSet64). Word.count q v) (sym same) ∙ ap (Word.count n') (sym place) ∙ cn'

-- In slot `i`, the two sets share a member.
abbrev pub SharesIn : BitSetVar → BitSetVar → ℕ → Type 0
SharesIn a b i = (v : ℕ) × (v / 64 ≡ i) × (count a v ≡ some true) × (count b v ≡ some true)

-- The members of a slot are those of its word.
SharesIn-word :
    (a b : BitSetVar) (i : ℕ) (m n : BitSet64)
    → get_elem? a.sets i ≡ some m
    → get_elem? b.sets i ≡ some n
    → SharesIn a b i ↔ ((c : ℕ) × (Word.contains m c ≡ true) × (Word.contains n c ≡ true))
unfolding Word.contains
SharesIn-word a b i m n em en = (
  λ (v, slot, ha, hb).
      let (m', em', cm, lt) = count_inv a v true ha in
      let (n', en', cn, lt') = count_inv b v true hb in
      let sm : m' ≡ m = some_injective (sym em' ∙ ap (get_elem? a.sets) slot ∙ em) in
      let sn : n' ≡ n = some_injective (sym en' ∙ ap (get_elem? b.sets) slot ∙ en) in
      (
        v - v / 64 * 64,
        ap (λ (q : BitSet64). Word.count q (v - v / 64 * 64)) (sym sm) ∙ cm,
        ap (λ (q : BitSet64). Word.count q (v - v / 64 * 64)) (sym sn) ∙ cn,
      ),
  λ (c, x, y).
      let lt : c < 64 = below_word m c x in
      let la = get_elem?-lt a.sets i em in
      let lb = get_elem?-lt b.sets i en in
      let slot : (i * 64 + c) / 64 ≡ i = omega arith in
      let place : i * 64 + c - (i * 64 + c) / 64 * 64 ≡ c = omega arith in
      (
        i * 64 + c,
        slot,
        count_of a (i * 64 + c) m (omega arith) (ap (get_elem? a.sets) slot ∙ em)
            ∙ rw place (ap some x),
        count_of b (i * 64 + c) n (omega arith) (ap (get_elem? b.sets) slot ∙ en)
            ∙ rw place (ap some y),
      ),
)

-- For a first set of 64 bit words that has at most as many words as the second,
-- doesIntersectWith of BitSetVar returns; it answers true exactly if the sets share a member in
-- each slot of the first set.
pub does_intersect_with_lem :
    (a b : BitSetVar)
    → length a.sets ≤ length b.sets
    → All IsWord a.sets
    → (ans : Bool) × (does_intersect_with a b ≡ some ans)
      × ((ans ≡ true) ↔ ((i : ℕ) → i < length a.sets → SharesIn a b i))
unfolding does_intersect_with
does_intersect_with_lem a b l words =
    let p = Word.does_intersect_with in
    let (ans, run) = all_words_returns p a.sets b.sets l in
    (
      ans,
      run,
      (
        λ t i lt.
            let (m, em) = get_elem?-of_lt a.sets i lt in
            let (n, en) = get_elem?-of_lt b.sets i (omega arith) in
            (SharesIn-word a b i m n em en).1 (
              (does_intersect_with-contains m n (All-get_elem? IsWord a.sets i m words em)).0
                (all_words_to p a.sets b.sets (run ∙ ap some t) i m n em en)),
        λ all. some_injective (
            sym run
            ∙ all_words_from p a.sets b.sets l λ i m n em en.
              (does_intersect_with-contains m n (All-get_elem? IsWord a.sets i m words em)).1
                ((SharesIn-word a b i m n em en).0 (all i (get_elem?-lt a.sets i em)))),
      ),
    )
