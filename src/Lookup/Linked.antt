-- ===== src/Lookup/Linked.antt =====
-- Three linked leaves at the addresses 2, 4 and 6, with the keys 10, 110 and 210. The first has
-- split since its version was read.
use incll.Base.{
  ℕ, zero, suc, ◌+◌, ◌-◌, ◌*◌, ◌≤◌, ◌<◌, ◌≡◌, refl, arith, false, ◌==◌, if◌then◌else◌, some, [],
  ◌∷◌, get_or,
}
use incll.Kpermuter
use incll.Nodeversion
use incll.Internode.{Internode}
use incll.Key.{Key}
use incll.Leaf.{Leaf}
use incll.Descent.{Store}
use incll.Lookup.{advance_to_key, safe_next, last_slot}
use incll.Lookup.Advance.{IsLinked, advance_to_key_lem}

abbrev inner_node : Internode
inner_node = record { version = 0; nkeys = 0; height = 0; ikey0 = λ i. 0; child = λ i. 0 }

-- The lowest bit of `next` marks a leaf that is being split.
abbrev leaf_at : ℕ → Leaf
leaf_at a = record {
  version = 0;
  not_logged = false;
  cl0_idx = 7;
  loggedepoch = 1;
  modstate = 0;
  keylenx = 8 ∷ [];
  permutation = 0xDCBA98765432101;
  perm_cl0 = 0;
  ksuf = 0;
  ikey0 = (50 * a - 90) ∷ [];
  next = if a == 6 then 0 else if a == 4 then 7 else 4;
  prev = 0;
  parent = 0;
  lv_cl1 = 0;
  lv_cl2 = 0;
  lv = a ∷ [];
}

abbrev store : Store
store = record {
  version = λ a. Nodeversion.isleaf_bit + 512;
  parent = λ a. 0;
  inner = λ a. inner_node;
  leaf = leaf_at;
}

abbrev wanted : Key
wanted = record { ikey0 = 150; len = 8; s = 0; first = 0 }

abbrev at : ℕ → ℕ
at i = 2 * i + 2

linked : IsLinked store wanted at 2
unfolding safe_next Nodeversion.deleted
linked = record {
  clean = λ i h. refl;
  alive = λ i h. refl;
  next = λ i h. next i h;
  there = λ i h e. absurd (omega (arith, e));
  last = refl;
}
  where
    next : (i : ℕ) → i < 2 → safe_next (leaf_at (2 * i + 2)) ≡ 2 * (i + 1) + 2
    next zero h = refl
    next (suc zero) h = refl
    next (suc (suc i)) h = absurd (omega (arith, h))

advance_to_key_lem_example :
    (j : ℕ) × (0 ≤ j)
    × (j ≤ 2)
    × (advance_to_key 3 store wanted 2 Nodeversion.isleaf_bit
        ≡ some (2 * j + 2, Nodeversion.isleaf_bit + 512))
    × (get_or ((leaf_at (2 * j + 2)).ikey0) 0 0 ≤ 150)
    × (j < 2 → 150 < get_or ((leaf_at (2 * (j + 1) + 2)).ikey0) 0 0)
unfolding last_slot Kpermuter.elem Kpermuter.size Nodeversion.has_split
advance_to_key_lem_example =
    advance_to_key_lem store wanted at 2 linked 3 0 Nodeversion.isleaf_bit (omega arith)
      (omega arith) refl (omega arith) (λ h p e. first_key p e)
  where
    first_key : (p : ℕ) → p ≡ 0 → get_or (10 ∷ []) p 0 < 110
    first_key zero e = omega arith
    first_key (suc p) e = absurd (omega (arith, e))
