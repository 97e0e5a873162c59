-- ===== src/UnionFind/Merge.antt =====
-- `merge`: the forest of the least equivalence that contains those of both arguments.
use fact_db.Prelude.{
  ℕ, zero, suc, ◌+◌, ◌≤◌, ◌<◌, ◌≡◌, ◌⊎◌, ◌↔◌, refl, true, some, inl, inr, arith, ◌==◌, ◌>>=◌,
  length, ℕ_discrete,
}
use mathlib.Core.Path.{subst}
use fact_db.UnionFind.{Elements, merge_from, merge}
use fact_db.UnionFind.Paths.{IsValid}
use fact_db.UnionFind.Find.{Keeps, Keeps-refl, Keeps-trans, find-Keeps}
use fact_db.UnionFind.Closure.{
  Closure, stay, forth, against, Closure-trans, Closure-IsEquivalence, Same, Same-sym, Same-trans,
  RootIs, RootIs-back, RootIs-root, RootIs-functional, RootIs-total, Same-lt, Joins,
  union_sets-Joins,
}

-- What the closure connects has one root, if each of its edges has.
pub Closure-Same :
    (E : ℕ → ℕ → Type 0) (size : ℕ) (es : Elements)
    → Joins (Closure E) size es
    → ((a b : ℕ) → E a b → Same es a b)
    → (a b : ℕ) → a < size
    → Closure E a b
    → Same es a b
Closure-Same E size es known edges a b lt stay =
    let (r, p) = RootIs-total es a known.valid (omega (arith, known.sized)) in (r, p, p)
Closure-Same E size es known edges a b lt (forth {j} c e) =
    Same-trans es a j b (Closure-Same E size es known edges a j lt c) (edges j b e)
Closure-Same E size es known edges a b lt (against {j} c e) =
    Same-trans es a j b (Closure-Same E size es known edges a j lt c)
      (Same-sym es b j (edges b j e))

-- One of two forests joins the elements.
abbrev pub EitherSame : Elements → Elements → ℕ → ℕ → Type 0
EitherSame a b i j = Same a i j ⊎ Same b i j

Same-root : (es : Elements) (i r : ℕ) → RootIs es i r → Same es i r
Same-root es i r p = (r, p, RootIs-root es i r p)

root_lt : (es : Elements) (i r : ℕ) → RootIs es i r → r < length es
root_lt es i r p = (Same-lt es i r (Same-root es i r p)).1

module _ (a b : Elements) (valid : IsValid a) (valid' : IsValid b)
    (sizes : length a ≡ length b) where
  abbrev Merges : ℕ → ℕ → Type 0
  Merges = Closure (EitherSame a b)

  -- The roots of the element in both forests are joined.
  Linked : Elements → ℕ → Type 0
  Linked result j = (x : ℕ) × (y : ℕ) × RootIs a j x × RootIs b j y × Same result x y

  merge_from-Joins :
      (n i : ℕ) (a1 b1 result : Elements)
      → Keeps a a1
      → Keeps b b1
      → Joins Merges (length a) result
      → i + n ≡ length a
      → (a' : Elements) × (b' : Elements) × (result' : Elements) × (merge_from n i a1 b1 result
          ≡ some (a', b', result'))
        × Keeps a a'
        × Keeps b b'
        × Joins Merges (length a) result'
        × ((j k : ℕ) → Same result j k → Same result' j k)
        × ((j : ℕ) → i ≤ j → j < length a → Linked result' j)
  unfolding merge_from Linked
  merge_from-Joins zero i a1 b1 result keep keep' known at =
      (a1, b1, result, refl, keep, keep', known, λ j k s. s, λ j le lt. absurd (omega arith))
  merge_from-Joins (suc n) i a1 b1 result keep keep' known at =
      let (x, a2, run, c, keep2, path) = find-Keeps a1 i keep.valid (omega (arith, keep.size)) in
      let (y, b2, run', c', keep2', path') =
        find-Keeps b1 i keep'.valid (omega (arith, keep'.size, sizes)) in
      let root = RootIs-back a a1 i x valid keep path in
      let root' = RootIs-back b b1 i y valid' keep' path' in
      let related : Merges x y =
        Closure-trans (against stay (inl (Same-root a i x root)))
          (forth stay (inr (Same-root b i y root'))) in
      let (ret, result1, united, known1, same, grows) =
        union_sets-Joins Merges (length a) result x y (Closure-IsEquivalence (EitherSame a b)) known
          (root_lt a i x root) (omega (arith, root_lt b i y root', sizes)) related in
      let (a', b', result', rest, end, end', known', grows', linked) =
        merge_from-Joins n (i + 1) a2 b2 result1 (Keeps-trans keep keep2) (Keeps-trans keep' keep2')
          known1 (omega arith) in
      (
        a',
        b',
        result',
        rw (run, ◌>>=◌, run', united) rest,
        end,
        end',
        known',
        λ j k s. grows' j k (grows j k s),
        λ j le lt. elim (ℕ_discrete i j) [
          | yes e ↦ (
            x,
            y,
            subst (λ q. RootIs a q x) e root,
            subst (λ q. RootIs b q y) e root',
            grows' x y same,
          )
          | no ne ↦ linked j (omega arith) lt
        ],
      )

  -- An edge of either forest is one of the result.
  edges_of_roots :
      (result : Elements)
      → ((j k : ℕ) → Same a j k → Same result j k)
      → ((j : ℕ) → j < length a → Linked result j)
      → (i j : ℕ) → EitherSame a b i j
      → Same result i j
  unfolding Linked
  edges_of_roots result grows linked i j (inl s) = grows i j s
  edges_of_roots result grows linked i j (inr (r, p, q)) =
      let (li, lj) = Same-lt b i j (r, p, q) in
      let to_root : (k : ℕ) → RootIs b k r → k < length b → Same result k r = λ k at lt.
        let (x, y, px, py, s) = linked k (omega (arith, sizes)) in
        subst (Same result k) (RootIs-functional b k y r py at)
          (Same-trans result k x y (grows k x (Same-root a k x px)) s) in
      Same-trans result i r j (to_root i p li) (Same-sym result j r (to_root j q lj))

  -- On two valid forests of the same size, merge returns; it changes the two arguments by path
  -- compression only, and its result is a valid forest, in which an element and any other have
  -- the same root exactly if the least equivalence that contains those of both arguments relates
  -- them.
  pub merge-Joins :
      (a' : Elements) × (b' : Elements) × (result : Elements) × (merge a b ≡ some (a', b', result))
      × Keeps a a'
      × Keeps b b'
      × IsValid result
      × ((i j : ℕ) → i < length a → (Same result i j ↔ Closure (EitherSame a b) i j))
  unfolding merge
  merge-Joins =
      let start : Joins Merges (length a) a = record {
        valid = valid;
        sized = refl;
        sound = λ i j s. forth stay (inl s);
      } in
      let (a', b', result, run, keep, keep', known, grows, linked) =
        merge_from-Joins (length a) 0 a b a (Keeps-refl a valid) (Keeps-refl b valid') start
          (omega arith) in
      let edges = edges_of_roots result grows (λ j lt. linked j (omega arith) lt) in
      let same_size : (length a == length b) ≡ true = ground (arith, sizes) in
      (
        a',
        b',
        result,
        rw same_size run,
        keep,
        keep',
        known.valid,
        λ i j lt.
            (known.sound i j, Closure-Same (EitherSame a b) (length a) result known edges i j lt),
      )
