-- ===== src/Chain/Selection/Tests.antt =====
-- Three candidates, of which the first has failed.
use coinbasechain.Base.{ℕ, ◌≡◌, refl, none, some, [], ◌∷◌}
use coinbasechain.Base.Map.{lookup, bytes_key, bytes_eq, bytes_less}
use coinbasechain.Chain.Index.{BlockIndex, Index}
use coinbasechain.Chain.Selection.{
  ChainSelector, precedes, find_most_work_chain, try_add_block_index_candidate,
}
use coinbasechain.Chain.Selection.Sets.{IsSorted}
use coinbasechain.Chain.Selection.Choice.{Chosen, find_most_work_chain-Chosen}

abbrev entry : ℕ → ℕ → BlockIndex
entry status work = record {
  status = status;
  prev = none;
  skip = none;
  height = 0;
  chain_work = work;
  version = 1;
  miner_address = [];
  time = 0;
  bits = 0;
  nonce = 0;
  hash_random_x = [];
  time_received = 0;
  time_max = 0;
}

abbrev blocks : Index
blocks = (1 ∷ [], entry 34 9) ∷ (2 ∷ [], entry 2 8) ∷ (3 ∷ [], entry 2 8) ∷ []

abbrev selector : ChainSelector
selector = record { candidates = (1 ∷ []) ∷ (2 ∷ []) ∷ (3 ∷ []) ∷ []; best_header = none }

selector-IsSorted : IsSorted blocks selector.candidates
unfolding precedes lookup bytes_eq bytes_less
selector-IsSorted = ((refl, (refl, tt)), ((refl, tt), (tt, tt)))

second_found : (find_most_work_chain blocks selector).1 ≡ some (2 ∷ [])
unfolding find_most_work_chain lookup bytes_eq
second_found = refl

-- The comparator puts a fourth block before those with less work.
fourth_first :
    try_add_block_index_candidate ((4 ∷ [], entry 2 9) ∷ blocks) (some (4 ∷ [])) selector
    ≡ some (record selector { candidates = (1 ∷ []) ∷ (4 ∷ []) ∷ (2 ∷ []) ∷ (3 ∷ []) ∷ [] })
unfolding try_add_block_index_candidate lookup bytes_eq bytes_less precedes
fourth_first = refl

find_most_work_chain-Chosen_example :
    Chosen blocks selector.candidates
      (find_most_work_chain blocks selector).0.candidates
      (find_most_work_chain blocks selector).1
find_most_work_chain-Chosen_example = find_most_work_chain-Chosen blocks selector selector-IsSorted
