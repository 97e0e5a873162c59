-- ===== src/HashTable.antt =====
-- `ChainingHashTable` of factDB/infra/ChainingHashTable.hpp, built by one thread. The entries that
-- the `next` pointers link to a slot are the slot's list, and a pointer to an entry is the rest of
-- its list. `none` stands for an access out of bounds. The assertion of `finalize` that an entry is in
-- no chain yet holds when it runs once, which is the case that is modelled.

pub mod Chains
pub mod Probe
pub mod Statistics
use fact_db.Prelude.{
  ℕ, zero, suc, ◌+◌, ◌-◌, ◌*◌, ◌/◌, ◌%◌, ◌^◌, ◌≤◌, ◌<◌, max, min, Bool, true, false, not, ◌&&◌,
  Option, none, some, List, [], ◌∷◌, ◌++◌, ltb, ◌==◌, if◌then◌else◌, ◌>>=◌, length, get_elem?, set,
  replicate,
}
use fact_db.Prelude.Bits.{bit_width}
use fact_db.JoinMode.{JoinType, is_right_semi}

pub record Entry (K V : Type 0) : Type 0 where
  pub hash : ℕ
  pub key : K
  pub val : V

pub record Table (K V : Type 0) : Type 0 where
  pub entries : List (List (Entry K V))
  pub hashtable : List (List (Entry K V))
  pub hash_table_shift : ℕ
  pub size_val : ℕ

-- The logarithm of the number of slots.
unfoldable pub get_hash_table_shift : ℕ → ℕ
get_hash_table_shift element_count =
    let min_size = max (element_count + element_count / 8) 16 in
    let log = 64 - (64 - bit_width 64 min_size) in if ltb (2 ^ log) min_size then log + 1 else log

unfoldable pub compute_slot : ℕ → ℕ → ℕ
compute_slot hash shift = hash / 2 ^ shift

module _ {K V : Type 0} where
  unfoldable pub chunk_size : Table K V → ℕ
  chunk_size t = 2 ^ (64 - t.hash_table_shift)

  -- `insert` into the local entries of the thread at a position.
  unfoldable pub insert : Table K V → ℕ → Entry K V → Option (Table K V)
  insert t thread e = get_elem? t.entries thread >>= λ local_entries. some (record t {
    entries = set t.entries thread (local_entries ++ e ∷ []);
    size_val = t.size_val + 1;
  })

  -- The entries from a position on that share the hash of the one before, and the rest.
  unfoldable pub take_run : ℕ → List (Entry K V) → List (Entry K V) × List (Entry K V)
  take_run hash [] = ([], [])
  take_run hash (next ∷ rest) =
      let r = take_run hash rest in
      if not (next.hash == hash) then ([], next ∷ rest) else (next ∷ r.0, r.1)

  -- `last->next = slot.exchange(first)`
  unfoldable pub exchange :
      List (List (Entry K V)) → ℕ → List (Entry K V) → Option (List (List (Entry K V)))
  exchange slots slot run = get_elem? slots slot >>= λ chain. some (set slots slot (run ++ chain))

  -- The loop over the entries of one thread with `processEntry`; each round takes an entry or more.
  unfoldable pub process_entries :
      ℕ → ℕ → List (List (Entry K V)) → List (Entry K V) → Option (List (List (Entry K V)))
  unfolding exchange
  process_entries zero shift slots es = none
  process_entries (suc fuel) shift slots [] = some slots
  process_entries (suc fuel) shift slots (e ∷ es) =
      let r = take_run e.hash es in
      exchange slots (compute_slot e.hash shift) (e ∷ r.0) >>= λ slots'.
      process_entries fuel shift slots' r.1

  unfoldable pub process_threads :
      ℕ → List (List (Entry K V)) → List (List (Entry K V)) → Option (List (List (Entry K V)))
  process_threads shift slots [] = some slots
  process_threads shift slots (es ∷ threads) =
      process_entries (suc (length es)) shift slots es >>= λ slots'.
      process_threads shift slots' threads

  unfoldable pub sum_lengths : List (List (Entry K V)) → ℕ
  sum_lengths [] = 0
  sum_lengths (es ∷ threads) = length es + sum_lengths threads

  -- `finalize<false>`
  unfoldable pub finalize : Table K V → Option (Table K V)
  unfolding sum_lengths
  finalize t =
      let size = sum_lengths t.entries in
      let shift = 64 - get_hash_table_shift size in
      process_threads shift (replicate (2 ^ (64 - shift)) []) t.entries >>= λ slots.
      some (record t { hashtable = slots; hash_table_shift = shift; size_val = size })

  unfoldable pub could_contain : Table K V → ℕ → Option Bool
  could_contain t hash = get_elem? t.hashtable (compute_slot hash t.hash_table_shift) >>= λ chain.
      some (not (length chain == 0))

  -- The loop of `lookup` from an entry on.
  unfoldable pub find_hash : ℕ → List (Entry K V) → List (Entry K V)
  find_hash hash [] = []
  find_hash hash (current ∷ next) =
      let rest = find_hash hash next in if current.hash == hash then current ∷ next else rest

  unfoldable pub lookup : Table K V → ℕ → Option (List (Entry K V))
  unfolding find_hash
  lookup t hash = get_elem? t.hashtable (compute_slot hash t.hash_table_shift) >>= λ chain.
      some (find_hash hash chain)

  unfoldable pub contains : Table K V → ℕ → Option Bool
  unfolding lookup
  contains t hash = lookup t hash >>= λ found. some (not (length found == 0))

  -- `lookup` with statistics: lengths and numbers of the searches that hit and that miss.
  unfoldable pub find_hash_counting : ℕ → ℕ → List (Entry K V) → ℕ × List (Entry K V)
  find_hash_counting hash n [] = (n, [])
  find_hash_counting hash n (current ∷ next) =
      let rest = find_hash_counting hash (n + 1) next in
      if current.hash == hash then (n + 1, current ∷ next) else rest

  unfoldable pub lookup_counting :
      Table K V → ℕ → ℕ × ℕ × ℕ × ℕ → Option (List (Entry K V) × (ℕ × ℕ × ℕ × ℕ))
  unfolding find_hash_counting
  lookup_counting t hash (hit_length, miss_length, hits, misses) =
      get_elem? t.hashtable (compute_slot hash t.hash_table_shift) >>= λ chain.
      let r = find_hash_counting hash 0 chain in
      some (
        if length r.1 == 0
        then ([], (hit_length, miss_length + r.0, hits, misses + 1))
        else (r.1, (hit_length + r.0, miss_length, hits + 1, misses)))

  -- The loop of `lookupNext`, and `lookupNext` itself, with the comparison of keys.
  unfoldable pub find_same : (K → K → Bool) → ℕ → K → List (Entry K V) → List (Entry K V)
  find_same same hash first_key [] = []
  find_same same hash first_key (current ∷ next) =
      let rest = find_same same hash first_key next in
      if (current.hash == hash) && same current.key first_key then current ∷ next else rest

  unfoldable pub lookup_next : (K → K → Bool) → List (Entry K V) → Option (List (Entry K V))
  unfolding find_same
  lookup_next same [] = none
  lookup_next same (current ∷ next) = some (find_same same current.hash current.key next)

  -- The chain lengths that `genStatistics` adds up, and the others it collects.
  unfoldable pub total_chain_length : List (List (Entry K V)) → ℕ
  total_chain_length [] = 0
  total_chain_length (chain ∷ slots) = length chain + total_chain_length slots

  unfoldable pub count_not_empty : List (List (Entry K V)) → ℕ
  count_not_empty [] = 0
  count_not_empty (chain ∷ slots) =
      if length chain == 0 then count_not_empty slots else suc (count_not_empty slots)

  unfoldable pub max_chain : List (List (Entry K V)) → ℕ
  max_chain [] = 0
  max_chain (chain ∷ slots) = max (length chain) (max_chain slots)

-- The loop of the join in MaterializedExecution over the entries that match the probed key; a right
-- semi-join stops after the first match.
module _ {K V : Type 0} where
  unfoldable pub probe_chain :
      JoinType → (K → K → Bool) → ℕ → K → List (Entry K V) → List (Entry K V)
  unfolding lookup_next is_right_semi
  probe_chain join_type same zero probe iter = []
  probe_chain join_type same (suc fuel) probe [] = []
  probe_chain join_type same (suc fuel) probe (current ∷ next) =
      let rest =
        probe_chain join_type same fuel probe (find_same same current.hash current.key next) in
      if same current.key probe
      then current ∷ (if is_right_semi join_type then [] else rest)
      else rest

  unfoldable pub probe_table :
      JoinType → (K → K → Bool) → Table K V → ℕ → K → Option (List (Entry K V))
  unfolding probe_chain lookup
  probe_table join_type same t hash probe =
      lookup t hash >>= λ iter. some (probe_chain join_type same (suc (length iter)) probe iter)
