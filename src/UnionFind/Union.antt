-- ===== src/UnionFind/Union.antt =====
-- `unionSets`: it joins the two trees and changes no other root.
use fact_db.Prelude.{
  ℕ, ◌+◌, ◌<◌, ◌≡◌, ◌≢◌, refl, sym, ◌∙◌, true, false, some, arith, ltb, ◌==◌, ◌||◌, if◌then◌else◌,
  length, get_elem?, set, get_elem?-set_ne, ℕ_discrete, inl, inr, ◌⊎◌, ◌>>=◌, set-same, Bool-cases,
  get_elem?-of_lt,
}
use mathlib.Core.Path.{subst}
use fact_db.UnionFind.{Element, Elements, set_representative, link, union_sets}
use fact_db.UnionFind.Paths.{Reaches, IsValid, Reaches-functional, Reaches-IsRoot, Reaches-total}
use fact_db.UnionFind.Find.{Keeps, Keeps-trans, find-Keeps}
use fact_db.UnionFind.Hang.{Hangs, hang-Hangs}

-- One of two distinct roots is hung below the other, which `link` returns.
abbrev Links : Elements → ℕ → ℕ → ℕ × Elements → Type 0
Links es rep1 rep2 (ret, es') =
    ((ret ≡ rep1) × Hangs es es' rep2 rep1) ⊎ ((ret ≡ rep2) × Hangs es es' rep1 rep2)

-- The write that leaves the rank is the write of both.
unranked :
    (es : Elements) (x w : ℕ) (e f : Element)
    → get_elem? es w ≡ some f
    → x ≢ w
    → set (set es x (set_representative e w)) w (record f { rank = f.rank })
      ≡ set es x (set_representative e w)
unranked es x w e f g ne =
    set-same (set es x (set_representative e w)) w f (get_elem?-set_ne es x w _ ne ∙ g)

link-Links :
    (es : Elements) (rep1 rep2 : ℕ) (e1 e2 : Element)
    → IsValid es
    → get_elem? es rep1 ≡ some e1
    → get_elem? es rep2 ≡ some e2
    → e1.representative ≡ 0
    → e2.representative ≡ 0
    → rep1 ≢ rep2
    → Links es rep1 rep2 (link es rep1 rep2 e1 e2)
unfolding link
link-Links es rep1 rep2 e1 e2 v g1 g2 z1 z2 ne =
    let swapped : rep2 ≢ rep1 = λ h. ne (sym h) in
    let r1 = v.ranked rep1 e1 g1 in
    let r2 = v.ranked rep2 e2 g2 in
    elim (Bool-cases (ltb e1.rank e2.rank)) [
      | inl lt ↦ rw lt (
          inr (
            refl,
            subst (λ q. Hangs es q rep1 rep2) (unranked es rep1 rep2 e1 e2 g2 ne)
                (hang-Hangs es rep1 rep2 e2.rank e1 e2 g1 g2 z1 z2 ne (ground arith) (omega arith)
                  (omega arith) v),
          ))
      | inr ge ↦ elim (Bool-cases (ltb e2.rank e1.rank)) [
        | inl lt ↦
            rw (ge, lt)
              (inl (
                refl,
                subst (λ q. Hangs es q rep2 rep1) (unranked es rep2 rep1 e2 e1 g1 swapped)
                    (hang-Hangs es rep2 rep1 e1.rank e2 e1 g2 g1 z2 z1 swapped (ground arith)
                      (omega arith) (omega arith) v),
              ))
        | inr le ↦ elim (Bool-cases (ltb rep1 rep2)) [
          | inl lt ↦
              rw (ge, le, lt)
                (inl (
                  refl,
                  hang-Hangs es rep2 rep1 (e1.rank + 1) e2 e1 g2 g1 z2 z1 swapped (ground arith)
                      (omega arith) (omega arith) v,
                ))
          | inr gt ↦
              rw (ge, le, gt)
                (inr (
                  refl,
                  hang-Hangs es rep1 rep2 (e2.rank + 1) e1 e2 g1 g2 z1 z2 ne (ground arith)
                      (omega arith) (omega arith) v,
                ))
        ]
      ]
    ]

-- `es'` is `es` with the trees of `a` and `b` joined at `ret`: an element whose root was one of
-- their two roots has the root `ret`, and any other element has the root that it had.
pub record Unites (es : Elements) (a b ret : ℕ) (es' : Elements) : Type 0 where
  pub valid : IsValid es'
  pub size : length es' ≡ length es
  pub left : ℕ
  pub right : ℕ
  pub left_root : (k : ℕ) × Reaches es k a left
  pub right_root : (k : ℕ) × Reaches es k b right
  pub winner : (ret ≡ left) ⊎ (ret ≡ right)
  pub roots :
      (k j r : ℕ)
      → Reaches es k j r
      → (m : ℕ) × Reaches es' m j (if (r == left) || (r == right) then ret else r)

one_root : (r r1 r2 : ℕ) → r1 ≡ r2 → (if (r == r1) || (r == r2) then r1 else r) ≡ r
one_root r r1 r2 s = ground arith

hung_left :
    (r r1 r2 ret : ℕ)
    → ret ≡ r1
    → (if r == r2 then r1 else r) ≡ (if (r == r1) || (r == r2) then ret else r)
hung_left r r1 r2 ret s = ground arith

hung_right :
    (r r1 r2 ret : ℕ)
    → ret ≡ r2
    → (if r == r1 then r2 else r) ≡ (if (r == r1) || (r == r2) then ret else r)
hung_right r r1 r2 ret s = ground arith

-- The root that the second `find` meets is the one that the forest had before the first.
right_path :
    (es es1 : Elements) (b r2 : ℕ)
    → IsValid es
    → b < length es
    → Keeps es es1
    → ((k : ℕ) × Reaches es1 k b r2)
    → (k : ℕ) × Reaches es k b r2
right_path es es1 b r2 v lt keep (k, path) =
    let (e, g) = get_elem?-of_lt es b lt in
    let (m, q, le, old) = Reaches-total es v b e g in
    let (m', le', new) = keep.roots m b q old in
    (m, subst (λ x. Reaches es m b x) (Reaches-functional es1 m' k b q r2 new path) old)

joined :
    (es es2 : Elements) (a b r1 r2 ret : ℕ) (es' : Elements)
    → Keeps es es2
    → ((k : ℕ) × Reaches es k a r1)
    → ((k : ℕ) × Reaches es k b r2)
    → Links es2 r1 r2 (ret, es')
    → Unites es a b ret es'
joined es es2 a b r1 r2 ret es' keep p1 p2 (inl (s, h)) = record {
  valid = h.valid;
  size = h.size ∙ keep.size;
  left = r1;
  right = r2;
  left_root = p1;
  right_root = p2;
  winner = inl s;
  roots = λ k j r path.
      let (m, le, path') = keep.roots k j r path in
      let (n, path'') = h.roots m j r path' in
      (n, subst (λ q. Reaches es' n j q) (hung_left r r1 r2 ret s) path'');
}
joined es es2 a b r1 r2 ret es' keep p1 p2 (inr (s, h)) = record {
  valid = h.valid;
  size = h.size ∙ keep.size;
  left = r1;
  right = r2;
  left_root = p1;
  right_root = p2;
  winner = inr s;
  roots = λ k j r path.
      let (m, le, path') = keep.roots k j r path in
      let (n, path'') = h.roots m j r path' in
      (n, subst (λ q. Reaches es' n j q) (hung_right r r1 r2 ret s) path'');
}

-- On a valid forest, unionSets of two elements in range ends; it returns the root of one of the
-- two, the new forest is valid and of the same size, and the root of every element changes only
-- as joining the two trees asks for.
pub union_sets-Unites :
    (es : Elements) (a b : ℕ)
    → IsValid es
    → a < length es
    → b < length es
    → (ret : ℕ) × (es' : Elements) × (union_sets es a b ≡ some (ret, es')) × Unites es a b ret es'
unfolding union_sets
union_sets-Unites es a b v la lb =
    let (r1, es1, run1, const1, keep1, path1) = find-Keeps es a v la in
    let (r2, es2, run2, const2, keep2, path2) =
      find-Keeps es1 b keep1.valid (omega (arith, keep1.size)) in
    let keep = Keeps-trans keep1 keep2 in
    let right = right_path es es1 b r2 v lb keep1 path2 in
    elim (ℕ_discrete r1 r2) [
      | yes s ↦
          let t : (r1 == r2) ≡ true = ground arith in
          (
            r1,
            es2,
            rw (run1, ◌>>=◌, run2, t),
            record {
              valid = keep.valid;
              size = keep.size;
              left = r1;
              right = r2;
              left_root = path1;
              right_root = right;
              winner = inl refl;
              roots = λ k j r path.
                  let (m, le, path') = keep.roots k j r path in
                  (m, subst (λ q. Reaches es2 m j q) (sym (one_root r r1 r2 s)) path');
            },
          )
      | no n ↦
          let t : (r1 == r2) ≡ false = ground (arith, n) in
          let (m1, le1, p1) = keep.roots path1.0 a r1 path1.1 in
          let (e1, g1, z1) = Reaches-IsRoot es2 m1 a r1 p1 in
          let (m2, le2, p2) = keep2.roots path2.0 b r2 path2.1 in
          let (e2, g2, z2) = Reaches-IsRoot es2 m2 b r2 p2 in
          let l = link es2 r1 r2 e1 e2 in
          (
            l.0,
            l.1,
            rw (run1, ◌>>=◌, run2, t, g1, g2),
            joined es es2 a b r1 r2 l.0 l.1 keep path1 right
                (link-Links es2 r1 r2 e1 e2 keep.valid g1 g2 z1 z2 n),
          )
    ]
