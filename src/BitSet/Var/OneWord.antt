-- ===== src/BitSet/Var/OneWord.antt =====
-- `BitSetVar` of one word: the operations are those of the word.
use fact_db.Prelude.{
  ◌^◌, ◌||◌, ◌==◌, bit_or, lt→ltb, ℕ, ◌+◌, ◌-◌, ◌*◌, ◌/◌, ◌<◌, ◌≡◌, ◌↔◌, refl, sym, ◌∙◌, ap, true,
  some, [], ◌∷◌, arith, get_elem?, length, some_injective, Bool-cases, inl, inr,
}
use fact_db.Prelude.Bits.{bit_or-lt}
use fact_db.BitSet.Word.Members.{contains-insert}
use fact_db.BitSet.Word.Single.{two_pow-lt}
use fact_db.BitSet.Word.{BitSet64, IsWord, insert, union, contains, empty_set, does_intersect_with}
use fact_db.BitSet.Word
use fact_db.BitSet.Word.Each.{below_capacity}
use fact_db.BitSet.Var.{BitSetVar, zip_words, all_words, insert_all}
use fact_db.BitSet.Var
use fact_db.BitSet.Var.Members.{count_inv, count_of}

pub contains_word :
    (s : BitSetVar) (w : BitSet64) (c : ℕ)
    → s.sets ≡ w ∷ []
    → (Var.contains s c ≡ some true) ↔ (contains w c ≡ true)
unfolding Var.contains contains
contains_word s w c e = (
  λ h.
      let (w', g, member, lt) = count_inv s c true h in
      let slot : c / 64 ≡ 0 = omega (arith, ap length e) in
      let place : c - c / 64 * 64 ≡ c = omega arith in
      let same : w ≡ w' =
        some_injective (sym (ap (λ ws. get_elem? ws 0) e) ∙ ap (get_elem? s.sets) (sym slot) ∙ g) in
      ap (λ x. fact_db.BitSet.Word.count x c) same
      ∙ ap (fact_db.BitSet.Word.count w') (sym place)
      ∙ member,
  λ h.
      let lt : c < 64 = below_capacity w c h in
      let slot : c / 64 ≡ 0 = omega arith in
      let place : c - c / 64 * 64 ≡ c = omega arith in
      count_of s c w (omega (arith, ap length e))
        (ap (get_elem? s.sets) slot ∙ ap (λ ws. get_elem? ws 0) e)
      ∙ ap some (ap (fact_db.BitSet.Word.count w) place ∙ h),
)

pub union_word :
    (s t : BitSetVar) (a b : BitSet64)
    → s.sets ≡ a ∷ []
    → t.sets ≡ b ∷ []
    → Var.union s t ≡ some (record { sets = union a b ∷ [] })
unfolding Var.union zip_words
union_word s t a b e f = rw (e, f) refl

pub new_word : (size : ℕ) → size < 64 → Var.new size [] ≡ some (record { sets = empty_set ∷ [] })
unfolding Var.new insert_all
new_word size lt = let one : size / 64 + 1 ≡ 1 = omega arith in rw one refl

pub does_intersect_with_word :
    (s t : BitSetVar) (a b : BitSet64)
    → s.sets ≡ a ∷ []
    → t.sets ≡ b ∷ []
    → Var.does_intersect_with s t ≡ some (does_intersect_with a b)
unfolding Var.does_intersect_with all_words
does_intersect_with_word s t a b e f =
    rw (e, f)
      (elim (Bool-cases (does_intersect_with a b)) [ inl h ↦ rw h refl | inr h ↦ rw h refl ])

pub insert-IsWord :
    (s : BitSetVar) (w : BitSet64) (c : ℕ)
    → s.sets ≡ w ∷ []
    → IsWord w
    → c < 64
    → (w' : BitSet64) × (Var.insert s c ≡ some (record { sets = w' ∷ [] }))
      × IsWord w'
      × ((v : ℕ) → contains w' v ≡ ((v == c) || contains w v))
unfolding Var.insert
insert-IsWord s w c e word lt =
    let w' : BitSet64 = record { set = bit_or w.set (2 ^ c) } in
    let slot : c / 64 ≡ 0 = omega arith in
    let offset : c - 0 ≡ c = omega arith in
    let inserted : insert w c ≡ some w' = unfold insert in rw (lt→ltb c 64 lt) refl in
    (
      w',
      rw (e, Var.calc_slot, lt→ltb c 64 lt, slot, offset, inserted) refl,
      bit_or-lt 64 w.set (2 ^ c) word (two_pow-lt c 64 lt),
      λ v. contains-insert w w' c v inserted,
    )
