-- ===== src/BitSet/Var/Members.antt =====
-- What the operations of `BitSetVar` do to membership.
use fact_db.Prelude.{
  ℕ, zero, suc, ◌-◌, ◌*◌, ◌/◌, ◌<◌, ◌≡◌, ◌∙◌, ap, Bool, not, ◌&&◌, ◌||◌, some, List, [], ◌∷◌,
  >>=-eq-some, length, get_elem?, arith, All, inl, inr, Option-cases, some_injective,
}
use mathlib.Core.Path.{subst}
use fact_db.BitSet.Word.{BitSet64, IsWord}
use fact_db.BitSet.Word
use fact_db.BitSet.Word.Members
use fact_db.BitSet.Var.{BitSetVar, count, zip_words, union, intersection, difference}

-- `count` is defined below the capacity, and reads the word of its slot.
pub count_inv :
    (s : BitSetVar) (v : ℕ) (x : Bool)
    → count s v ≡ some x
    → (w : BitSet64) × (get_elem? s.sets (v / 64) ≡ some w)
      × (Word.count w (v - v / 64 * 64) ≡ x)
      × (v < length s.sets * 64)
unfolding count
count_inv s v x h = elim (Option-cases (get_elem? s.sets (v / 64))) [
  | inl e ↦ absurd (ground arith)
  | inr (w, e) ↦ (w, e, ground arith, ground arith)
]

pub count_of :
    (s : BitSetVar) (v : ℕ) (w : BitSet64)
    → v < length s.sets * 64
    → get_elem? s.sets (v / 64) ≡ some w
    → count s v ≡ some (Word.count w (v - v / 64 * 64))
unfolding count
count_of s v w h e = ground arith

pub zip_words-get_elem? :
    (f : BitSet64 → BitSet64 → BitSet64) (xs ys zs : List BitSet64) (i : ℕ) (x y : BitSet64)
    → zip_words f xs ys ≡ some zs
    → get_elem? xs i ≡ some x
    → get_elem? ys i ≡ some y
    → get_elem? zs i ≡ some (f x y)
unfolding zip_words
zip_words-get_elem? f [] ys zs i x y h p q = cc
zip_words-get_elem? f (a ∷ xs) [] zs i x y h p q = cc
zip_words-get_elem? f (a ∷ xs) (b ∷ ys) zs zero x y h p q = ground arith
zip_words-get_elem? f (a ∷ xs) (b ∷ ys) zs (suc i) x y h p q =
    let (ws, e, e') = >>=-eq-some (zip_words f xs ys) _ h in
    ground (arith, zip_words-get_elem? f xs ys ws i x y e p q)

pub length-zip_words :
    (f : BitSet64 → BitSet64 → BitSet64) (xs ys zs : List BitSet64)
    → zip_words f xs ys ≡ some zs
    → length zs ≡ length xs
unfolding zip_words
length-zip_words f [] ys zs h = ground arith
length-zip_words f (a ∷ xs) [] zs h = cc
length-zip_words f (a ∷ xs) (b ∷ ys) zs h =
    let (ws, e, e') = >>=-eq-some (zip_words f xs ys) _ h in
    ground (arith, length-zip_words f xs ys ws e)

-- A slotwise operation acts on membership as its word operation does.
count-zip_words :
    (f : BitSet64 → BitSet64 → BitSet64) (g : Bool → Bool → Bool) (a b : BitSetVar)
    (ws : List BitSet64) (v : ℕ) {x y : Bool}
    → ((m n : BitSet64) (i : ℕ)
        → get_elem? b.sets (v / 64) ≡ some n
        → Word.count (f m n) i ≡ g (Word.count m i) (Word.count n i))
    → zip_words f a.sets b.sets ≡ some ws
    → count a v ≡ some x
    → count b v ≡ some y
    → count (record { sets = ws }) v ≡ some (g x y)
count-zip_words f g a b ws v word run ha hb =
    let (m, em, cm, lt) = count_inv a v _ ha in
    let (n, en, cn, lt') = count_inv b v _ hb in
    let e = zip_words-get_elem? f a.sets b.sets ws (v / 64) m n run em en in
    let l = length-zip_words f a.sets b.sets ws run in
    count_of (record { sets = ws }) v (f m n) (omega arith) e
    ∙ ap some (word m n (v - v / 64 * 64) en ∙ rw (cm, cn))

pub All-get_elem? {ℓ κ} :
    {A : Type ℓ} (P : A → Type κ) (xs : List A) (i : ℕ) (x : A)
    → All P xs
    → get_elem? xs i ≡ some x
    → P x
All-get_elem? P [] i x h e = absurd (cc)
All-get_elem? P (y ∷ xs) zero x h e = subst P (some_injective e) h.0
All-get_elem? P (y ∷ xs) (suc i) x h e = All-get_elem? P xs i x h.1 e

-- If both sets have an answer for a number, the words of the second are of 64 bits, and the
-- operators are defined, then union, intersection and difference of two BitSetVar answer as or,
-- and, and and-not of the two answers.
pub slotwise_members :
    (a b r u d : BitSetVar) (v : ℕ) (x y : Bool)
    → All IsWord b.sets
    → count a v ≡ some x
    → count b v ≡ some y
    → union a b ≡ some u
    → intersection a b ≡ some r
    → difference a b ≡ some d
    → (count u v ≡ some (x || y)) × (count r v ≡ some (x && y)) × (count d v ≡ some (x && not y))
unfolding union intersection difference Word.contains
slotwise_members a b r u d v x y words ha hb hu hr hd =
    let (us, eu, fu) = >>=-eq-some (zip_words Word.union a.sets b.sets) _ hu in
    let (rs, er, fr) = >>=-eq-some (zip_words Word.intersection a.sets b.sets) _ hr in
    let (ds, ed, fd) = >>=-eq-some (zip_words Word.difference a.sets b.sets) _ hd in
    (
      subst (λ (q : BitSetVar). count q v ≡ some (x || y)) (some_injective fu)
          (count-zip_words Word.union ◌||◌ a b us v (λ m n i e. Members.contains-union m n i) eu ha
            hb),
      subst (λ (q : BitSetVar). count q v ≡ some (x && y)) (some_injective fr)
          (count-zip_words Word.intersection ◌&&◌ a b rs v
            (λ m n i e. Members.contains-intersection m n i) er ha hb),
      subst (λ (q : BitSetVar). count q v ≡ some (x && not y)) (some_injective fd)
          (count-zip_words Word.difference (λ p q. p && not q) a b ds v
            (λ m n i e.
              Members.contains-difference m n i (All-get_elem? IsWord b.sets (v / 64) n words e))
            ed ha hb),
    )
