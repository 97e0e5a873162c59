-- ===== src/HashTable/Chains.antt =====
-- `finalize` puts every entry into the chain of its slot, once.
use fact_db.Prelude.{
  ℕ, zero, suc, ◌+◌, ◌-◌, ◌*◌, ◌/◌, ◌^◌, ◌≤◌, ◌<◌, ◌≡◌, refl, sym, ◌∙◌, ap, Bool, true, false, not,
  ◌&&◌, some, List, [], ◌∷◌, ◌++◌, arith, ◌==◌, if◌then◌else◌, ◌>>=◌, length, get_elem?, set,
  replicate, All, Bool-cases, inl, inr, max, some_injective, get_elem?-of_lt, get_elem?-set_self,
  get_elem?-set_ne, length-set, length-replicate, ℕ_discrete,
}
use mathlib.Core.Path.{subst}
use native.Mathlib.Nat.{pow-suc, div-lt_iff_lt-mul, one-le-pow}
use fact_db.Prelude.Bits.{bit_width}
use fact_db.HashTable.{
  Entry, Table, get_hash_table_shift, compute_slot, take_run, exchange, process_entries,
  process_threads, sum_lengths, finalize,
}

module _ {K V : Type 0} where
  unfoldable pub count_if : (Entry K V → Bool) → List (Entry K V) → ℕ
  count_if p [] = 0
  count_if p (e ∷ es) = let rest = count_if p es in if p e then suc rest else rest

  unfoldable pub count_threads : (Entry K V → Bool) → List (List (Entry K V)) → ℕ
  count_threads p [] = 0
  count_threads p (es ∷ threads) = count_if p es + count_threads p threads

  pub count_if-append :
      (p : Entry K V → Bool) (xs ys : List (Entry K V))
      → count_if p (xs ++ ys) ≡ count_if p xs + count_if p ys
  unfolding count_if
  count_if-append p [] ys = omega arith
  count_if-append p (x ∷ xs) ys = ground (arith, count_if-append p xs ys)

  -- The test for the entries of a slot.
  abbrev pub in_slot : ℕ → ℕ → (Entry K V → Bool) → Entry K V → Bool
  in_slot shift i p e = p e && (compute_slot e.hash shift == i)

  abbrev pub IsHashed : Entry K V → Type 0
  IsHashed e = e.hash < 2 ^ 64

  take_run_counts :
      (p : Entry K V → Bool) (hash shift i : ℕ) (es : List (Entry K V))
      → (count_if p es ≡ count_if p (take_run hash es).0 + count_if p (take_run hash es).1)
        × (count_if (in_slot shift i p) (take_run hash es).0
            ≡ (if compute_slot hash shift == i then count_if p (take_run hash es).0 else 0))
        × (length (take_run hash es).1 ≤ length es)
  unfolding take_run count_if
  take_run_counts p hash shift i [] = (omega arith, ground arith, omega arith)
  take_run_counts p hash shift i (next ∷ rest) =
      let (split, run, short) = take_run_counts p hash shift i rest in
      elim (Bool-cases (next.hash == hash)) [
        | inl e ↦
            let same : next.hash ≡ hash = ground arith in
            let slot : compute_slot next.hash shift ≡ compute_slot hash shift =
              ap (λ h. compute_slot h shift) same in
            (ground arith, ground (arith, slot), ground arith)
        | inr e ↦ (ground arith, ground arith, ground arith)
      ]

  take_run-All :
      (hash : ℕ) (es : List (Entry K V)) → All IsHashed es → All IsHashed (take_run hash es).1
  unfolding take_run
  take_run-All hash [] h = h
  take_run-All hash (next ∷ rest) (h, hs) =
      elim (next.hash == hash)
        as (λ b.
          All IsHashed
            (if◌then◌else◌ {A = List (Entry K V) × List (Entry K V)} (not b) ([], next ∷ rest)
              (next ∷ (take_run hash rest).0, (take_run hash rest).1)).1) [
                | true ↦ take_run-All hash rest hs
                | false ↦ (h, hs)
              ]

  -- Every chain of the new slots is one of the old ones, with the entries of its slot in front.
  abbrev pub Adds :
      ℕ → List (List (Entry K V)) → ((Entry K V → Bool) → ℕ) → List (List (Entry K V)) → Type 0
  Adds shift slots added slots' =
      (length slots' ≡ length slots)
      × ((p : Entry K V → Bool) (i : ℕ) (chain' : List (Entry K V))
          → get_elem? slots' i ≡ some chain'
          → (chain : List (Entry K V)) × (get_elem? slots i ≡ some chain)
            × (count_if p chain' ≡ count_if p chain + added (in_slot shift i p)))

  exchange_counts :
      (slots : List (List (Entry K V))) (slot : ℕ) (run : List (Entry K V))
      → slot < length slots
      → (slots' : List (List (Entry K V))) × (exchange slots slot run ≡ some slots')
        × (length slots' ≡ length slots)
        × ((p : Entry K V → Bool) (i : ℕ) (chain' : List (Entry K V))
            → get_elem? slots' i ≡ some chain'
            → (chain : List (Entry K V)) × (get_elem? slots i ≡ some chain)
              × (count_if p chain' ≡ count_if p chain + (if slot == i then count_if p run else 0)))
  unfolding exchange
  exchange_counts slots slot run lt =
      let (old, g) = get_elem?-of_lt slots slot lt in
      (
        set slots slot (run ++ old),
        rw g,
        length-set slots slot (run ++ old),
        λ p i chain' get. elim (ℕ_discrete slot i) [
          | yes e ↦
              let e' : (slot == i) ≡ true = ground arith in
              let new : run ++ old ≡ chain' = some_injective (
                sym (get_elem?-set_self slots slot (run ++ old) lt)
                ∙ ap (get_elem? (set slots slot (run ++ old))) e
                ∙ get) in
              (
                old,
                ap (get_elem? slots) (sym e) ∙ g,
                rw e' (ap (count_if p) (sym new) ∙ count_if-append p run old ∙ omega arith),
              )
          | no ne ↦
              let e' : (slot == i) ≡ false = ground arith in
              (
                chain',
                sym (get_elem?-set_ne slots slot i (run ++ old) ne) ∙ get,
                rw e' (omega arith),
              )
        ],
      )

  process_entries-Adds :
      (fuel shift : ℕ) (slots : List (List (Entry K V))) (es : List (Entry K V))
      → length es < fuel
      → All IsHashed es
      → ((e : Entry K V) → IsHashed e → compute_slot e.hash shift < length slots)
      → (slots' : List (List (Entry K V))) × (process_entries fuel shift slots es ≡ some slots')
        × Adds shift slots (λ q. count_if q es) slots'
  unfolding process_entries count_if
  process_entries-Adds zero shift slots es h hs lt = elim h [ ]
  process_entries-Adds (suc fuel) shift slots [] h hs lt =
      (slots, refl, (refl, λ p i chain' get. (chain', get, omega arith)))
  process_entries-Adds (suc fuel) shift slots (e ∷ es) h (eh, hs) lt =
      let r = take_run e.hash es in
      let (slots1, run1, length1, counts1) =
        exchange_counts slots (compute_slot e.hash shift) (e ∷ r.0) (lt e eh) in
      let short = (take_run_counts (λ x. true) e.hash shift 0 es).2 in
      let (slots2, run2, (length2, counts2)) =
        process_entries-Adds fuel shift slots1 r.1 (omega arith) (take_run-All e.hash es hs)
          (λ x xh. omega (arith, lt x xh, length1)) in
      (
        slots2,
        rw (run1, ◌>>=◌, run2),
        (
          length2 ∙ length1,
          λ p i chain2 get2.
              let (chain1, get1, e2) = counts2 p i chain2 get2 in
              let (chain, get, e1) = counts1 p i chain1 get1 in
              (
                chain,
                get,
                ground (
                  arith,
                  e1,
                  e2,
                  take_run_counts (in_slot shift i p) e.hash shift i es,
                  take_run_counts p e.hash shift i es,
                ),
              ),
        ),
      )

  process_threads-Adds :
      (shift : ℕ) (slots threads : List (List (Entry K V)))
      → All (All IsHashed) threads
      → ((e : Entry K V) → IsHashed e → compute_slot e.hash shift < length slots)
      → (slots' : List (List (Entry K V))) × (process_threads shift slots threads ≡ some slots')
        × Adds shift slots (λ q. count_threads q threads) slots'
  unfolding process_threads count_threads
  process_threads-Adds shift slots [] hs lt =
      (slots, refl, (refl, λ p i chain' get. (chain', get, omega arith)))
  process_threads-Adds shift slots (es ∷ threads) (h, hs) lt =
      let (slots1, run1, (length1, counts1)) =
        process_entries-Adds (suc (length es)) shift slots es (omega arith) h lt in
      let (slots2, run2, (length2, counts2)) =
        process_threads-Adds shift slots1 threads hs (λ x xh. omega (arith, lt x xh, length1)) in
      (
        slots2,
        rw (run1, ◌>>=◌, run2),
        (
          length2 ∙ length1,
          λ p i chain2 get2.
              let (chain1, get1, e2) = counts2 p i chain2 get2 in
              let (chain, get, e1) = counts1 p i chain1 get1 in (chain, get, omega (arith, e1, e2)),
        ),
      )

bit_width-le : (f w x : ℕ) → x < 2 ^ w → bit_width f x ≤ w
unfolding bit_width
bit_width-le zero w x h = omega arith
bit_width-le (suc f) zero x h = ground arith
bit_width-le (suc f) (suc w) x h =
    ground (arith, bit_width-le f w (x / 2) (omega (arith, pow-suc 2 w)))

-- The logarithm of the number of slots, below the word's width.
get_hash_table_shift-le : (n : ℕ) → n < 2 ^ 62 → get_hash_table_shift n ≤ 64
unfolding get_hash_table_shift
get_hash_table_shift-le n h = ground (arith, bit_width-le 64 63 (max (n + n / 8) 16) (omega arith))

two_pow_split : (a b : ℕ) → 2 ^ (a + b) ≡ 2 ^ a * 2 ^ b
two_pow_split a zero = let e : a + 0 ≡ a = omega arith in rw e (omega arith)
two_pow_split a (suc b) =
    let e : a + suc b ≡ suc (a + b) = omega arith in
    rw (e, pow-suc 2 (a + b), pow-suc 2 b, two_pow_split a b) (nonlinear (2 ^ a) (2 ^ b))
  where
    nonlinear : (x y : ℕ) → x * y * 2 ≡ x * (y * 2)
    nonlinear x y = grind arith

compute_slot-lt : (hash log : ℕ) → hash < 2 ^ 64 → log ≤ 64 → compute_slot hash (64 - log) < 2 ^ log
unfolding compute_slot
compute_slot-lt hash log h le =
    let e : log + (64 - log) ≡ 64 = omega arith in
    let split : 2 ^ 64 ≡ 2 ^ log * 2 ^ (64 - log) =
      subst (λ n. 2 ^ n ≡ 2 ^ log * 2 ^ (64 - log)) e (two_pow_split log (64 - log)) in
    (div-lt_iff_lt-mul (one-le-pow (64 - log) 2 (omega arith))).1 (subst (λ n. hash < n) split h)

get_elem?-replicate :
    {A : Type 0} (n i : ℕ) (a b : A) → get_elem? (replicate n a) i ≡ some b → b ≡ a
get_elem?-replicate zero i a b h = cc
get_elem?-replicate (suc n) zero a b h = sym (some_injective h)
get_elem?-replicate (suc n) (suc i) a b h = get_elem?-replicate n i a b h

module _ {K V : Type 0} where
  count_if_congr :
      (p q : Entry K V → Bool) (es : List (Entry K V))
      → ((e : Entry K V) → p e ≡ q e)
      → count_if p es ≡ count_if q es
  unfolding count_if
  count_if_congr p q [] h = refl
  count_if_congr p q (e ∷ es) h = rw (h e, count_if_congr p q es h)

  count_threads_congr :
      (p q : Entry K V → Bool) (threads : List (List (Entry K V)))
      → ((e : Entry K V) → p e ≡ q e)
      → count_threads p threads ≡ count_threads q threads
  unfolding count_threads
  count_threads_congr p q [] h = refl
  count_threads_congr p q (es ∷ threads) h =
      rw (count_if_congr p q es h, count_threads_congr p q threads h)

  -- The test for the entries of a hash.
  abbrev pub with_hash : ℕ → (Entry K V → Bool) → Entry K V → Bool
  with_hash hash p e = p e && (e.hash == hash)

  in_slot-with_hash :
      (shift hash : ℕ) (p : Entry K V → Bool) (e : Entry K V)
      → in_slot shift (compute_slot hash shift) (with_hash hash p) e ≡ with_hash hash p e
  in_slot-with_hash shift hash p e = elim (Bool-cases (e.hash == hash)) [
    | inl same ↦
        let same' : e.hash ≡ hash = ground arith in
        let slot : compute_slot e.hash shift ≡ compute_slot hash shift =
          ap (λ h. compute_slot h shift) same' in
        ground (arith, slot)
    | inr other ↦ rw other (ground arith)
  ]

  -- `finalize` on fewer than 2^62 entries with hashes of 64 bits returns. The slot of each hash is
  -- there, and its chain holds as many entries of the hash that pass a test as the threads have
  -- inserted.
  pub finalize_lem :
      (t : Table K V)
      → All (All IsHashed) t.entries
      → sum_lengths t.entries < 2 ^ 62
      → (t' : Table K V) × (finalize t ≡ some t')
        × ((hash : ℕ) (p : Entry K V → Bool)
            → hash < 2 ^ 64
            → (chain : List (Entry K V)) × (get_elem? t'.hashtable
                  (compute_slot hash t'.hash_table_shift)
                ≡ some chain)
              × (count_if (with_hash hash p) chain ≡ count_threads (with_hash hash p) t.entries))
  unfolding finalize count_if
  finalize_lem t hs small =
      let log = get_hash_table_shift (sum_lengths t.entries) in
      let le = get_hash_table_shift-le (sum_lengths t.entries) small in
      let same : 64 - (64 - log) ≡ log = omega arith in
      let slots0 : List (List (Entry K V)) = replicate (2 ^ (64 - (64 - log))) [] in
      let length0 : length slots0 ≡ 2 ^ log =
        length-replicate (2 ^ (64 - (64 - log))) [] ∙ ap (λ n. 2 ^ n) same in
      let (slots, run, (length1, counts)) =
        process_threads-Adds (64 - log) slots0 t.entries hs
          (λ e h. omega (arith, compute_slot-lt e.hash log h le, length0)) in
      (
        record t {
          hashtable = slots;
          hash_table_shift = 64 - log;
          size_val = sum_lengths t.entries;
        },
        rw run,
        λ hash p h.
            let i = compute_slot hash (64 - log) in
            let (chain, get) =
              get_elem?-of_lt slots i
                (omega (arith, compute_slot-lt hash log h le, length0, length1)) in
            let (chain0, get0, e) = counts (with_hash hash p) i chain get in
            let nothing : count_if (with_hash hash p) chain0 ≡ 0 =
              ap (count_if (with_hash hash p))
                (get_elem?-replicate (2 ^ (64 - (64 - log))) i [] chain0 get0) in
            (
              chain,
              get,
              e
                  ∙ omega (arith, nothing)
                  ∙ count_threads_congr _ _ t.entries (in_slot-with_hash (64 - log) hash p),
            ),
      )
