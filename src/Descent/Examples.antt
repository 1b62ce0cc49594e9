-- ===== src/Descent/Examples.antt =====
-- A layer of one internode at address 1, with the key 100, and two leaves at addresses 2 and 3.
use incll.Base.{
  ℕ, zero, suc, ◌+◌, ◌^◌, ◌≤◌, ◌<◌, ◌≡◌, inr, refl, arith, true, false, ◌==◌, if◌then◌else◌, [],
}
use incll.Nodeversion
use incll.Internode.{Internode}
use incll.Leaf.{Leaf}
use incll.Ksearch.{key_upper_bound_by, upper_loop}
use incll.Slice.{compare}
use incll.Descent.{Store, climbing, found, compare_key, upper, stable, advance, run}
use incll.Descent.Tree.{IsClean, IsInner, IsTip, IsTree, IsBelow}
use incll.Descent.Quiet.{run-IsTree}
use incll.Descent.Way
use incll.Descent.Reads.{run-Read}

abbrev pub inner_node : Internode
inner_node = record {
  version = Nodeversion.root_bit;
  nkeys = 1;
  height = 0;
  ikey0 = λ i. 100;
  child = λ i. i + 2;
}

abbrev leaf_node : Leaf
leaf_node = record {
  version = Nodeversion.isleaf_bit;
  not_logged = false;
  cl0_idx = 7;
  loggedepoch = 1;
  modstate = 0;
  keylenx = [];
  permutation = 0;
  perm_cl0 = 0;
  ksuf = 0;
  ikey0 = [];
  next = 0;
  prev = 0;
  parent = 1;
  lv_cl1 = 0;
  lv_cl2 = 0;
  lv = [];
}

abbrev pub store : Store
store = record {
  version = λ a. if a == 1 then Nodeversion.root_bit else Nodeversion.isleaf_bit;
  parent = λ a. if a == 1 then 0 else 1;
  inner = λ a. inner_node;
  leaf = λ a. leaf_node;
}

-- The search for 150 from the first leaf: one parent up, and down to the second leaf.
run_test : run 2 150 (λ i. store) 0 8 (climbing 2) ≡ found 3 Nodeversion.isleaf_bit
unfolding run advance stable upper compare_key compare key_upper_bound_by upper_loop
    Nodeversion.is_root Nodeversion.isleaf Nodeversion.has_changed
run_test = refl

-- While an insertion is in progress in the leaf, the search waits, and then takes the new version.
abbrev busy : ℕ → Store
busy t = record store {
  version = λ a.
      if a == 1
      then Nodeversion.root_bit
      else if t == 5
      then Nodeversion.isleaf_bit + 2
      else Nodeversion.isleaf_bit + 8;
}

run_test2 : run 1 150 busy 0 7 (climbing 1) ≡ found 3 (Nodeversion.isleaf_bit + 8)
unfolding run advance stable upper compare_key compare key_upper_bound_by upper_loop
    Nodeversion.is_root Nodeversion.isleaf Nodeversion.has_changed
run_test2 = refl

run-Read_example :
    (u : ℕ) × (0 ≤ u)
    × (u < 0 + 7)
    × ((busy u).version 3 ≡ Nodeversion.isleaf_bit + 8)
    × IsClean (Nodeversion.isleaf_bit + 8)
    × (Nodeversion.isleaf (Nodeversion.isleaf_bit + 8) ≡ true)
    × Way.Way busy 0 7 150 3 (Nodeversion.isleaf_bit + 8) u
run-Read_example = run-Read busy 1 150 0 7 3 (Nodeversion.isleaf_bit + 8) run_test2

abbrev pub Half : ℕ → ℕ → ℕ → Type 0
Half a lo hi = (a ≡ 3 → lo ≡ 100) × (a ≡ 2 → hi ≡ 100)

pub is_inner : IsInner store 1
unfolding Nodeversion.isleaf
is_inner = record {
  clean = refl;
  kind = refl;
  increasing = λ i j h k. absurd (omega (arith, h, k));
  children = λ j h e. absurd (omega (arith, e));
}

pub is_tree : IsTree store Half 1 1 0 (2 ^ 64)
unfolding Nodeversion.isleaf
is_tree = inr (is_inner, λ j h. child j h)
  where
    child :
        (j : ℕ)
        → j ≤ 1
        → IsTree store Half 0 (j + 2) (if j == 0 then 0 else 100) (if j == 1 then 2 ^ 64 else 100)
    child zero h = record {
      clean = refl;
      kind = refl;
      content = (λ e. absurd (omega (arith, e)), λ e. refl);
    }
    child (suc zero) h = record {
      clean = refl;
      kind = refl;
      content = (λ e. refl, λ e. absurd (omega (arith, e)));
    }
    child (suc (suc j)) h = absurd (omega (arith, h))

is_below : IsBelow store Half 1 2 1
unfolding Nodeversion.is_root
is_below = (refl, refl, λ e. absurd (omega (arith, e)), (refl, refl, refl))

run-IsTree_example :
    (leaf lo hi : ℕ) × (run 2 150 (λ i. store) 0 8 (climbing 2) ≡ found leaf (store.version leaf))
    × IsTip store Half leaf lo hi
    × (lo ≤ 150)
    × (150 < hi)
run-IsTree_example =
    run-IsTree store Half 2 150 1 2 1 1 8 0 is_below is_tree (omega arith) (omega arith)
