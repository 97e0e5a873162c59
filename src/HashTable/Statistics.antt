-- ===== src/HashTable/Statistics.antt =====
-- The lookup that counts the entries it walks over.
use fact_db.Prelude.{
  ℕ, suc, ◌+◌, ◌-◌, ◌≤◌, ◌≡◌, refl, sym, ◌∙◌, ap, some, List, [], ◌∷◌, arith, ◌==◌, if◌then◌else◌,
  length, get_elem?, Bool-cases, false, inl, inr, some_injective,
}
use fact_db.HashTable.{
  Entry, Table, compute_slot, find_hash, lookup, find_hash_counting, lookup_counting,
}
use fact_db.HashTable.Probe.{length-find_hash}

module _ {K V : Type 0} where
  -- How many entries of the chain a search walks over that stops at the found one.
  unfoldable pub walked : List (Entry K V) → List (Entry K V) → ℕ
  walked chain found = if length found == 0 then length chain else length chain - length found + 1

  walked-later :
      (e : Entry K V) (es found : List (Entry K V))
      → length found ≤ length es
      → walked (e ∷ es) found ≡ suc (walked es found)
  unfolding walked
  walked-later e es found le = elim (Bool-cases (length found == 0)) [
    | inl e ↦ rw e refl
    | inr ne ↦ rw ne (omega arith)
  ]

  find_hash_counting_lem :
      (hash n : ℕ) (chain : List (Entry K V))
      → find_hash_counting hash n chain
        ≡ (n + walked chain (find_hash hash chain), find_hash hash chain)
  unfolding find_hash_counting find_hash
  find_hash_counting_lem hash n [] =
      let none : List (Entry K V) = [] in
      let nothing : walked none none ≡ 0 = unfold walked in refl in
      ap (λ k. (k, none)) (omega (arith, nothing))
  find_hash_counting_lem hash n (e ∷ es) =
      let ih = find_hash_counting_lem hash (n + 1) es in
      elim (Bool-cases (e.hash == hash)) [
        | inl h ↦
            let here : walked (e ∷ es) (e ∷ es) ≡ 1 = unfold walked in ground arith in
            rw h (ap (λ k. (k, e ∷ es)) (omega (arith, here)))
        | inr h ↦
            let later = walked-later e es (find_hash hash es) (length-find_hash hash es) in
            rw h (ih ∙ ap (λ k. (k, find_hash hash es)) (omega (arith, later)))
      ]

  by_result :
      (found : List (Entry K V)) (miss hit : ℕ × ℕ × ℕ × ℕ)
      → ◌≡◌ {A = List (Entry K V) × (ℕ × ℕ × ℕ × ℕ)}
          (if length found == 0 then ([], miss) else (found, hit))
          (found, if length found == 0 then miss else hit)
  by_result [] miss hit = refl
  by_result (f ∷ fs) miss hit = let ne : (length (f ∷ fs) == 0) ≡ false = ground arith in rw ne refl

  -- When the slot of the hash holds a chain and lookup returns, the lookup with statistics
  -- returns the same entry. It adds the number of entries that it walked over, which is the
  -- position of the entry that was found or the length of the chain, to the lengths of the hits
  -- or of the misses, and counts one hit or one miss.
  pub lookup_counting_lem :
      (t : Table K V) (hash hit_length miss_length hits misses : ℕ) (chain found : List (Entry K V))
      → get_elem? t.hashtable (compute_slot hash t.hash_table_shift) ≡ some chain
      → lookup t hash ≡ some found
      → lookup_counting t hash (hit_length, miss_length, hits, misses)
        ≡ some (
          found,
          if length found == 0
              then (hit_length, miss_length + walked chain found, hits, misses + 1)
              else (hit_length + walked chain found, miss_length, hits + 1, misses),
        )
  unfolding lookup_counting lookup
  lookup_counting_lem t hash hit_length miss_length hits misses chain found get is =
      let same : find_hash hash chain ≡ found = some_injective (sym (rw get refl) ∙ is) in
      let counted =
        find_hash_counting_lem hash 0 chain
        ∙ ap (λ k. (k, find_hash hash chain)) {x = 0 + walked chain (find_hash hash chain)}
            {y = walked chain (find_hash hash chain)} (omega arith) in
      rw (get, counted, same) (ap some (by_result found _ _))
