-- ===== src/Internode/Examples.antt =====
-- A full node of three keys, and a child inserted into its second half.
use incll.Base.{ℕ, ◌≤◌, ◌<◌, ◌≡◌, ◌≢◌, refl, arith, false, [], ◌∷◌, get_or}
use incll.Internode.{Internode, World, split_into, middle, assign_world, split_parents}
use incll.Internode.Halves.{IsSplit, split_into_lem}
use incll.Internode.Parents.{unlocked, split_parents_lem}

abbrev three_keys : Internode
three_keys = record {
  version = 1;
  nkeys = 3;
  height = 1;
  ikey0 = λ j. get_or (10 ∷ 20 ∷ 30 ∷ []) j 0;
  child = λ j. get_or (401 ∷ 402 ∷ 403 ∷ 404 ∷ []) j 0;
}

abbrev fresh : Internode
fresh = record { version = 1; nkeys = 0; height = 1; ikey0 = λ j. 0; child = λ j. 0 }

split_into_lem_example :
    IsSplit three_keys 2 25 500 (middle 3 0) 3 (split_into 3 three_keys fresh 2 25 500 0)
split_into_lem_example =
    split_into_lem 3 three_keys fresh 2 25 500 0 (omega arith) refl (omega arith)

-- The key 25 goes up, and the new node has the children 500 and 404.
split_test : (split_into 3 three_keys fresh 2 25 500 0).split_ikey ≡ 25
unfolding split_into middle
split_test = refl

abbrev no_parents : World
no_parents = record { parent = λ c. 7; locked = λ c. false; persisted = [] }

split_parents_lem_example :
    let after = split_parents 3 70 77 three_keys fresh 2 25 500 0 no_parents in
    let right = (split_into 3 three_keys fresh 2 25 500 0).right in
    (after.parent 500 ≡ 77)
    × (2 < 2 → (assign_world 77 2 500 2 no_parents).parent 500 ≡ 77)
    × ((j : ℕ) → j ≤ 1 → right.child j ≢ 500 → after.parent (right.child j) ≡ 77)
    × ((c : ℕ) → c ≢ 500 → ((j : ℕ) → j ≤ 1 → right.child j ≢ c) → after.parent c ≡ 7)
    × (after.persisted ≡ unlocked (λ c. false) right.child 0 2)
unfolding middle
split_parents_lem_example =
    split_parents_lem 3 70 77 three_keys fresh 2 25 500 0 no_parents (omega arith) refl
      (omega arith)
