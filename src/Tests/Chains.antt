-- ===== src/Tests/Chains.antt =====
-- The hash table at concrete entries.
use fact_db.Prelude.{
  length, ◌+◌, ℕ, ◌≡◌, refl, Bool, true, not, ◌||◌, if◌then◌else◌, some, [], ◌∷◌, arith, ◌==◌,
}
use fact_db.JoinMode.{inner, right_semi}
use fact_db.HashTable.{
  lookup_counting, Entry, Table, finalize, contains, could_contain, probe_table, compute_slot,
  sum_lengths,
}
use fact_db.HashTable.Chains.{count_threads, with_hash}
use fact_db.HashTable.Statistics.{walked, lookup_counting_lem}
use fact_db.HashTable.Probe.{IsEquality, contains_lem, keep, taken, probe_table_lem}

-- Two entries of one hash with different keys, and one of another hash, inserted by two threads.
abbrev red : Entry ℕ ℕ
red = record { hash = 5; key = 1; val = 10 }

abbrev green : Entry ℕ ℕ
green = record { hash = 5; key = 2; val = 20 }

abbrev blue : Entry ℕ ℕ
blue = record { hash = 7; key = 3; val = 30 }

abbrev collected : Table ℕ ℕ
collected = record {
  entries = (red ∷ green ∷ []) ∷ (blue ∷ []) ∷ [];
  hashtable = [];
  hash_table_shift = 0;
  size_val = 0;
}

abbrev built : Table ℕ ℕ
built = record {
  entries = [];
  hashtable = (blue ∷ red ∷ green ∷ []) ∷ [] ∷ [];
  hash_table_shift = 63;
  size_val = 3;
}

numbers : IsEquality ◌==◌
numbers = record { left = λ a b c h. ground arith; right = λ a b c h. ground arith }

-- The entry `green` is in the table, and the loop for its key does not reach it.
probe_green : probe_table inner ◌==◌ built 5 2 ≡ some []
unfolding probe_table compute_slot
probe_green = refl

probe_red : probe_table inner ◌==◌ built 5 1 ≡ some (red ∷ [])
unfolding probe_table compute_slot
probe_red = refl

-- Two entries of one key: an inner join yields both, a right semi-join the first.
abbrev doubled : Table ℕ ℕ
doubled = record built { hashtable = (red ∷ red ∷ []) ∷ [] ∷ [] }

probe_doubled :
    (probe_table inner ◌==◌ doubled 5 1 ≡ some (red ∷ red ∷ []))
    × (probe_table right_semi ◌==◌ doubled 5 1 ≡ some (red ∷ []))
unfolding probe_table compute_slot
probe_doubled = (refl, refl)

contains_lem_example :
    (t' : Table ℕ ℕ) × (finalize collected ≡ some t')
    × (contains t' 7 ≡ some (not (count_threads (with_hash 7 (λ e. true)) collected.entries == 0)))
    × ((b : Bool) × (could_contain t' 7 ≡ some b)
        × ((b || (count_threads (with_hash 7 (λ e. true)) collected.entries == 0)) ≡ true))
unfolding sum_lengths
contains_lem_example =
    contains_lem collected 7 ((omega arith, (omega arith, tt)), ((omega arith, tt), tt))
      (omega arith) (omega arith)

probe_table_lem_example :
    probe_table inner ◌==◌ built 5 2
    ≡ some (if 1 == 2 then taken inner (keep ◌==◌ 5 2 (blue ∷ red ∷ green ∷ [])) else [])
unfolding fact_db.HashTable.sum_lengths compute_slot fact_db.HashTable.find_hash
probe_table_lem_example =
    probe_table_lem inner ◌==◌ built 5 2 (blue ∷ red ∷ green ∷ []) red (green ∷ []) numbers refl
      refl

lookup_counting_lem_example :
    lookup_counting built 5 (100, 200, 10, 20)
    ≡ some (
      red ∷ green ∷ [],
      if length (red ∷ green ∷ []) == 0
          then (100, 200 + walked (blue ∷ red ∷ green ∷ []) (red ∷ green ∷ []), 10, 21)
          else (100 + walked (blue ∷ red ∷ green ∷ []) (red ∷ green ∷ []), 200, 11, 20),
    )
unfolding compute_slot fact_db.HashTable.lookup fact_db.HashTable.find_hash
lookup_counting_lem_example =
    lookup_counting_lem built 5 100 200 10 20 (blue ∷ red ∷ green ∷ []) (red ∷ green ∷ []) refl refl

walked_runs : walked (blue ∷ red ∷ green ∷ []) (red ∷ green ∷ []) ≡ 2
unfolding walked
walked_runs = refl
