-- ===== src/HashTable/Probe.antt =====
-- Lookups in a table, and the probing loop of a join.
use fact_db.Prelude.{
  ℕ, zero, suc, ◌≤◌, ◌<◌, ◌^◌, ◌≡◌, refl, sym, ◌∙◌, ap, Bool, true, false, not, ◌&&◌, ◌||◌, some,
  List, [], ◌∷◌, arith, ◌==◌, if◌then◌else◌, length, get_elem?, All, Bool-cases, inl, inr,
}
use mathlib.Core.Path.{subst}
use fact_db.JoinMode.{JoinType, inner, right_semi, is_right_semi}
use fact_db.HashTable.{
  Entry, Table, compute_slot, sum_lengths, finalize, find_hash, lookup, contains, could_contain,
  find_same, probe_chain, probe_table,
}
use fact_db.HashTable.Chains.{count_if, count_threads, with_hash, IsHashed, finalize_lem}

-- Comparison of keys: equal keys compare alike.
pub record IsEquality {K : Type 0} (same : K → K → Bool) : Type 0 where
  pub left : (a b c : K) → same a b ≡ true → same a c ≡ same b c
  pub right : (a b c : K) → same a b ≡ true → same c a ≡ same c b

module _ {K V : Type 0} where
  find_hash_found :
      (hash : ℕ) (chain : List (Entry K V))
      → (length (find_hash hash chain) == 0) ≡ (count_if (with_hash hash (λ e. true)) chain == 0)
  unfolding find_hash count_if
  find_hash_found hash [] = refl
  find_hash_found hash (e ∷ es) = ground (arith, find_hash_found hash es)

  pub length-find_hash :
      (hash : ℕ) (chain : List (Entry K V)) → length (find_hash hash chain) ≤ length chain
  unfolding find_hash
  length-find_hash hash [] = omega arith
  length-find_hash hash (e ∷ es) = ground (arith, length-find_hash hash es)

  -- After finalize on fewer than 2^62 entries with hashes of 64 bits, contains returns for each
  -- hash of 64 bits and tells whether an entry with the hash has been inserted, and couldContain
  -- returns and denies no such hash.
  pub contains_lem :
      (t : Table K V) (hash : ℕ)
      → All (All IsHashed) t.entries
      → sum_lengths t.entries < 2 ^ 62
      → hash < 2 ^ 64
      → (t' : Table K V) × (finalize t ≡ some t')
        × (contains t' hash
            ≡ some (not (count_threads (with_hash hash (λ e. true)) t.entries == 0)))
        × ((b : Bool) × (could_contain t' hash ≡ some b)
            × ((b || (count_threads (with_hash hash (λ e. true)) t.entries == 0)) ≡ true))
  unfolding contains could_contain
  contains_lem t hash hs small h =
      let (t', run, chains) = finalize_lem t hs small in
      let (chain, get, e) = chains hash (λ e. true) h in
      let found = find_hash_found hash chain in
      let answer : contains t' hash ≡ some (not (length (find_hash hash chain) == 0)) = rw get in
      (
        t',
        run,
        answer ∙ ap (λ b. some (not b)) (found ∙ ap (λ n. n == 0) e),
        (not (length chain == 0), rw get, ground (arith, length-find_hash hash chain, found, e)),
      )

  -- The entries of a hash and a key.
  unfoldable pub keep : (K → K → Bool) → ℕ → K → List (Entry K V) → List (Entry K V)
  keep same hash probe [] = []
  keep same hash probe (e ∷ es) =
      let rest = keep same hash probe es in
      if (e.hash == hash) && same e.key probe then e ∷ rest else rest

  abbrev Found : (K → K → Bool) → ℕ → K → List (Entry K V) → Type 0
  Found same hash k [] = Unit
  Found same hash k (c ∷ rest) = ((c.hash == hash) ≡ true) × (same c.key k ≡ true)

  find_same-Found :
      (same : K → K → Bool) (hash : ℕ) (k : K) (es : List (Entry K V))
      → Found same hash k (find_same same hash k es)
        × (length (find_same same hash k es) ≤ length es)
  unfolding find_same
  find_same-Found same hash k [] = (tt, omega arith)
  find_same-Found same hash k (e ∷ es) =
      let (f, le) = find_same-Found same hash k es in
      elim (Bool-cases (e.hash == hash)) [
        | inl h ↦ elim (Bool-cases (same e.key k)) [
          | inl s ↦ rw (h, s) ((h, s), omega arith)
          | inr s ↦ rw (h, s) (f, omega arith)
        ]
        | inr h ↦ rw h (f, omega arith)
      ]

  keep-find_same :
      (same : K → K → Bool) (hash : ℕ) (k probe : K) (es : List (Entry K V))
      → ((c : K) → same c k ≡ same c probe)
      → keep same hash probe (find_same same hash k es) ≡ keep same hash probe es
  unfolding find_same keep
  keep-find_same same hash k probe [] agree = refl
  keep-find_same same hash k probe (e ∷ es) agree =
      let rest = keep-find_same same hash k probe es agree in
      elim (Bool-cases (e.hash == hash)) [
        | inl h ↦ elim (Bool-cases (same e.key k)) [
          | inl s ↦ let s' = sym (agree e.key) ∙ s in rw (h, s, s') (rw h)
          | inr s ↦ let s' = sym (agree e.key) ∙ s in rw (h, s, s', rest)
        ]
        | inr h ↦ rw (h, rest)
      ]

  keep-find_hash :
      (same : K → K → Bool) (hash : ℕ) (probe : K) (es : List (Entry K V))
      → keep same hash probe (find_hash hash es) ≡ keep same hash probe es
  unfolding find_hash keep
  keep-find_hash same hash probe [] = refl
  keep-find_hash same hash probe (e ∷ es) = elim (Bool-cases (e.hash == hash)) [
    | inl h ↦ rw h (rw h)
    | inr h ↦ rw (h, keep-find_hash same hash probe es)
  ]

  probe_matching :
      (ty : JoinType) (same : K → K → Bool) (fuel hash : ℕ) (k probe : K) (iter : List (Entry K V))
      → IsEquality same
      → same k probe ≡ true
      → Found same hash k iter
      → length iter < fuel
      → is_right_semi ty ≡ false
      → probe_chain ty same fuel probe iter ≡ keep same hash probe iter
  unfolding probe_chain keep
  probe_matching ty same zero hash k probe iter eq s f lt all = elim lt [ ]
  probe_matching ty same (suc fuel) hash k probe [] eq s f lt all = refl
  probe_matching ty same (suc fuel) hash k probe (c ∷ next) eq s (h, ck) lt all =
      let hit : same c.key probe ≡ true = eq.left c.key k probe ck ∙ s in
      let at : c.hash ≡ hash = ground arith in
      let (f, le) = find_same-Found same c.hash c.key next in
      let rest =
        probe_matching ty same fuel c.hash c.key probe (find_same same c.hash c.key next) eq hit f
          (omega arith) all in
      let kept = keep-find_same same c.hash c.key probe next (λ x. eq.right c.key probe x hit) in
      let moved : keep same c.hash probe next ≡ keep same hash probe next =
        ap (λ n. keep same n probe next) at in
      rw (hit, h, all) (ap (λ es. c ∷ es) (rest ∙ kept ∙ moved))

  probe_missing :
      (ty : JoinType) (same : K → K → Bool) (fuel hash : ℕ) (k probe : K) (iter : List (Entry K V))
      → IsEquality same
      → same k probe ≡ false
      → Found same hash k iter
      → probe_chain ty same fuel probe iter ≡ []
  unfolding probe_chain
  probe_missing ty same zero hash k probe iter eq s f = refl
  probe_missing ty same (suc fuel) hash k probe [] eq s f = refl
  probe_missing ty same (suc fuel) hash k probe (c ∷ next) eq s (h, ck) =
      let miss : same c.key probe ≡ false = eq.left c.key k probe ck ∙ s in
      rw (
        miss,
        probe_missing ty same fuel c.hash c.key probe (find_same same c.hash c.key next) eq miss
            (find_same-Found same c.hash c.key next).0,
      )

  find_hash-first :
      (hash : ℕ) (chain : List (Entry K V)) (first : Entry K V) (rest : List (Entry K V))
      → find_hash hash chain ≡ first ∷ rest
      → (first.hash == hash) ≡ true
  unfolding find_hash
  find_hash-first hash [] first rest e = cc
  find_hash-first hash (c ∷ cs) first rest e = elim (Bool-cases (c.hash == hash)) [
    | inl h ↦ ground (arith, e)
    | inr h ↦ find_hash-first hash cs first rest (ground (arith, e))
  ]

  -- What a join keeps of the matches.
  unfoldable pub taken : JoinType → List (Entry K V) → List (Entry K V)
  taken inner matches = matches
  taken right_semi [] = []
  taken right_semi (first ∷ others) = first ∷ []

  taken-first :
      (ty : JoinType) (first : Entry K V) (others : List (Entry K V))
      → taken ty (first ∷ others) ≡ first ∷ (if is_right_semi ty then [] else others)
  unfolding taken is_right_semi
  taken-first inner first others = refl
  taken-first right_semi first others = refl

  -- The loop of a join over lookup and lookupNext, where the comparison of keys is an equality
  -- and the chain of the slot holds an entry of the probed hash: if the first such entry has the
  -- probed key, the loop of an inner join yields exactly the entries of the chain with the hash
  -- and the key, and the loop of a right semi-join the first of them; if the first entry has
  -- another key, the loop yields nothing.
  pub probe_table_lem :
      (ty : JoinType) (same : K → K → Bool) (t : Table K V) (hash : ℕ) (probe : K)
      (chain : List (Entry K V)) (first : Entry K V) (rest : List (Entry K V))
      → IsEquality same
      → get_elem? t.hashtable (compute_slot hash t.hash_table_shift) ≡ some chain
      → find_hash hash chain ≡ first ∷ rest
      → probe_table ty same t hash probe
        ≡ some (if same first.key probe then taken ty (keep same hash probe chain) else [])
  unfolding probe_table lookup
  probe_table_lem ty same t hash probe chain first rest eq get found =
      let at = find_hash-first hash chain first rest found in
      let (f, le) = find_same-Found same first.hash first.key rest in
      elim (Bool-cases (same first.key probe)) [
        | inl hit ↦
            let kept =
              keep-find_same same first.hash first.key probe rest
                (λ x. eq.right first.key probe x hit) in
            let same_hash : first.hash ≡ hash = ground arith in
            let moved : keep same first.hash probe rest ≡ keep same hash probe rest =
              ap (λ n. keep same n probe rest) same_hash in
            let whole : keep same hash probe (first ∷ rest) ≡ first ∷ keep same hash probe rest =
              unfold keep in rw (at, hit) in
            let all : first ∷ keep same hash probe rest ≡ keep same hash probe chain =
              sym whole
              ∙ ap (keep same hash probe) (sym found)
              ∙ keep-find_hash same hash probe chain in
            let matches = keep same hash probe rest in
            let goal : (first ∷ (if is_right_semi ty then [] else matches))
                ≡ taken ty (keep same hash probe chain) =
              sym (taken-first ty first matches) ∙ ap (taken ty) all in
            let at_type : (b : Bool)
                → is_right_semi ty ≡ b
                → (first ∷ (if b then [] else matches)) ≡ taken ty (keep same hash probe chain) =
              λ b e.
                subst
                  (λ q.
                    (first ∷ (if q then [] else matches)) ≡ taken ty (keep same hash probe chain))
                  e goal in
            elim (Bool-cases (is_right_semi ty)) [
              | inl semi ↦ rw (get, found, hit, semi) (ap some (at_type true semi))
              | inr whole_chain ↦
                  let tail =
                    probe_matching ty same (suc (length rest)) first.hash first.key probe
                      (find_same same first.hash first.key rest) eq hit f (omega arith)
                      whole_chain in
                  rw (get, found, hit, whole_chain)
                    (ap some
                      (ap (λ es. first ∷ es) (tail ∙ kept ∙ moved) ∙ at_type false whole_chain))
            ]
        | inr miss ↦
            rw (get, found, miss)
              (ap some (
                probe_missing ty same (suc (length rest)) first.hash first.key probe
                  (find_same same first.hash first.key rest) eq miss f))
      ]
