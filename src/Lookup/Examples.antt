-- ===== src/Lookup/Examples.antt =====
-- A tree of two layers, each of one leaf with one slot, that holds the value 42 for the string
-- "masstree keys are". The leaf of the second layer lost its key in the failed epoch 3.
use mathlib.Core.Path.{subst}
use mathlib.Core.Bool.{true≢false}
use incll.Base.{
  ℕ, zero, suc, ◌+◌, ◌-◌, ◌%◌, ◌^◌, ◌≤◌, ◌<◌, ◌≡◌, ◌≢◌, ◌⊎◌, inl, inr, refl, sym, ap, arith, Bool,
  true, false, ltb, ◌==◌, ==_iff, Bool-cases, if◌then◌else◌, Option, none, some, List, [], ◌∷◌,
  length, drop, get_or,
}
use incll.Kpermuter
use incll.Nodeversion
use incll.Incll.{set_loggedepoch, get_loggedepoch, invalidate_cl, is_cl_valid}
use incll.Slice.{load, big_endian}
use incll.Internode.{Internode}
use incll.Leaf.{Leaf, lazy_recovery}
use incll.Descent.{Store}
use incll.Lookup.{Str, get}
use incll.Lookup.Layer.{slice, Fits, IsSlot, ends, longer, view, IsContent, IsLayer}
use incll.Lookup.Refines.{get_lem}

abbrev text : List ℕ
text =
    109 ∷ 97 ∷ 115 ∷ 115 ∷ 116 ∷ 114 ∷ 101 ∷ 101 ∷ 32 ∷ 107 ∷ 101 ∷ 121 ∷ 115 ∷ 32 ∷ 97 ∷ 114 ∷ 101
    ∷ []

abbrev mem : ℕ → ℕ
mem a = get_or text (a - 100) 0 % 256

mem_valid : (a : ℕ) → mem a < 256
mem_valid a = omega arith

-- The suffix "e", where the string ends
abbrev ksuf : ℕ → ℕ → Str
ksuf a p = record { s = 116; len = 1 }

abbrev one_key : ℕ
one_key = 0xDCBA98765432101

abbrev no_key : ℕ
no_key = 0xDCBA98765432100

abbrev first_slice : ℕ
first_slice = 7881707762587166053

abbrev second_slice : ℕ
second_slice = 2336072404018684274

abbrev upper_leaf : Leaf
upper_leaf = record {
  version = Nodeversion.isleaf_bit;
  not_logged = false;
  cl0_idx = 7;
  loggedepoch = 4;
  modstate = 0;
  keylenx = 128 ∷ [];
  permutation = one_key;
  perm_cl0 = 0;
  ksuf = 0;
  ikey0 = first_slice ∷ [];
  next = 0;
  prev = 0;
  parent = 0;
  lv_cl1 = 0;
  lv_cl2 = 0;
  lv = 2 ∷ [];
}

abbrev lower_leaf : Leaf
lower_leaf = record upper_leaf {
  cl0_idx = 0;
  loggedepoch = 3;
  keylenx = 64 ∷ [];
  permutation = no_key;
  perm_cl0 = one_key;
  ikey0 = second_slice ∷ [];
  lv = 42 ∷ [];
}

abbrev inner_node : Internode
inner_node = record { version = 0; nkeys = 0; height = 0; ikey0 = λ i. 0; child = λ i. 0 }

abbrev store : Store
store = record {
  version = λ a. Nodeversion.root_bit + Nodeversion.isleaf_bit;
  parent = λ a. 0;
  inner = λ a. inner_node;
  leaf = λ a. if a == 1 then upper_leaf else lower_leaf;
}

-- The store as `get` sees it, and the maps of the two layers
abbrev seen : Store
seen = view mem ksuf 5 3 2 store

abbrev is_end : List ℕ → Bool
is_end [] = false
is_end (c ∷ []) = c == 101
is_end (c ∷ d ∷ t) = false

abbrev lower_map : List ℕ → Option ℕ
lower_map t =
    if slice t == second_slice
    then if ltb 8 (length t) then if is_end (drop 8 t) then some 42 else none else none
    else none

abbrev upper_map : List ℕ → Option ℕ
upper_map t =
    if slice t == first_slice then if ltb 8 (length t) then lower_map (drop 8 t) else none else none

is_end_lem : (t : List ℕ) → is_end t ≡ true → t ≡ 101 ∷ []
is_end_lem [] e = absurd (true≢false (sym e))
is_end_lem (c ∷ []) e = ap (λ x. x ∷ []) ((==_iff c 101).0 e)
is_end_lem (c ∷ (d ∷ t)) e = absurd (true≢false (sym e))

is_end_no : (t : List ℕ) → t ≢ 101 ∷ [] → is_end t ≡ false
is_end_no t h = elim (Bool-cases (is_end t)) [ inl e ↦ absurd (h (is_end_lem t e)) | inr e ↦ e ]

single : (i p : ℕ) → i < Kpermuter.size one_key → p ≡ Kpermuter.elem one_key i → p ≡ 0
unfolding Kpermuter.elem Kpermuter.size
single zero p h e = e
single (suc i) p h e = absurd (omega (arith, h))

same_slice : (t : List ℕ) (x : ℕ) → slice t ≡ x → (slice t == x) ≡ true
same_slice t x e = (==_iff _ _).1 e

is_long :
    (t : List ℕ) (klx : ℕ)
    → 8 < klx
    → ((8 < length t) × (8 < klx)) ⊎ ((length t ≤ 8) × (length t ≡ klx))
    → ltb 8 (length t) ≡ true
is_long t klx h (inl (x, y)) = ground (arith, x)
is_long t klx h (inr (x, y)) = absurd (omega (arith, h, x, y))

-- A map that has strings of one slice only, longer than 8
absent_of :
    (t : List ℕ) (x klx : ℕ) (r : Option ℕ)
    → 8 < klx
    → (Fits x klx t → ⊥)
    → (if slice t == x then if ltb 8 (length t) then r else none else none) ≡ none
absent_of t x klx r h never = elim (Bool-cases (slice t == x)) [
  | inr e ↦ rw e refl
  | inl e ↦ elim (Bool-cases (ltb 8 (length t))) [
    | inr f ↦ rw (e, f) refl
    | inl f ↦ absurd (never ((==_iff _ _).0 e, inl (ground (arith, f), h)))
  ]
]

-- The slot of the second layer
lower-IsSlot :
    (Below : ℕ → (List ℕ → Option ℕ) → Type 0)
    → IsSlot Below lower_map second_slice 64 42 (101 ∷ [])
lower-IsSlot Below =
    ends refl
      (λ t f e.
        rw (same_slice t second_slice f.0, is_long t 64 (omega arith) f.1, ap is_end e) refl)
      (λ t f e.
        rw (same_slice t second_slice f.0, is_long t 64 (omega arith) f.1, is_end_no (drop 8 t) e)
          refl)

upper-IsSlot :
    (Below : ℕ → (List ℕ → Option ℕ) → Type 0)
    → Below 2 lower_map
    → IsSlot Below upper_map first_slice 128 2 (101 ∷ [])
upper-IsSlot Below below =
    longer refl lower_map below
      (λ t f. rw (same_slice t first_slice f.0, is_long t 128 (omega arith) f.1) refl)

lower-IsContent :
    (Below : ℕ → (List ℕ → Option ℕ) → Type 0)
    → IsContent mem ksuf 5 3 2 seen Below lower_map 2 0 (2 ^ 64)
unfolding lazy_recovery Kpermuter.size Kpermuter.elem load Nodeversion.deleted set_loggedepoch
    get_loggedepoch invalidate_cl is_cl_valid
lower-IsContent Below = record {
  alive = refl;
  settled = refl;
  increasing = λ i j h l p q e f. absurd (omega (arith, h, l));
  slots = λ i p h e.
      subst
        (λ p.
          IsSlot Below lower_map (get_or ((seen.leaf 2).ikey0) p 0)
            (get_or ((seen.leaf 2).keylenx) p 0) (get_or ((seen.leaf 2).lv) p 0) (101 ∷ []))
        (sym (single i p h e)) (lower-IsSlot Below);
  absent = λ t l h never.
      absent_of t second_slice 64 _ (omega arith) (λ f. never 0 0 (omega arith) refl f);
}

upper-IsContent :
    (Below : ℕ → (List ℕ → Option ℕ) → Type 0)
    → Below 2 lower_map
    → IsContent mem ksuf 5 3 2 seen Below upper_map 1 0 (2 ^ 64)
unfolding lazy_recovery Kpermuter.size Kpermuter.elem load Nodeversion.deleted set_loggedepoch
    get_loggedepoch invalidate_cl is_cl_valid
upper-IsContent Below below = record {
  alive = refl;
  settled = refl;
  increasing = λ i j h l p q e f. absurd (omega (arith, h, l));
  slots = λ i p h e.
      subst
        (λ p.
          IsSlot Below upper_map (get_or ((seen.leaf 1).ikey0) p 0)
            (get_or ((seen.leaf 1).keylenx) p 0) (get_or ((seen.leaf 1).lv) p 0) (101 ∷ []))
        (sym (single i p h e)) (upper-IsSlot Below below);
  absent = λ t l h never.
      absent_of t first_slice 128 _ (omega arith) (λ f. never 0 0 (omega arith) refl f);
}

two_layers : IsLayer mem ksuf 5 3 2 seen 2 1 upper_map
unfolding Nodeversion.is_root Nodeversion.isleaf
two_layers =
    let lower : IsLayer mem ksuf 5 3 2 seen 1 2 lower_map = (
      0,
      2,
      0,
      omega arith,
      (refl, refl, refl),
      record {
        clean = refl;
        kind = refl;
        content = lower-IsContent (IsLayer mem ksuf 5 3 2 seen 0);
      },
    ) in
    (
      0,
      1,
      0,
      omega arith,
      (refl, refl, refl),
      record {
        clean = refl;
        kind = refl;
        content = upper-IsContent (IsLayer mem ksuf 5 3 2 seen 1) lower;
      },
    )

-- The map has the value for the string, and none for its first 16 characters.
upper_map_test : upper_map (load mem 100 17) ≡ some 42
unfolding big_endian load
upper_map_test = refl

upper_map_test2 : upper_map (load mem 100 16) ≡ none
unfolding big_endian load
upper_map_test2 = refl

get_lem_example :
    (s' : Store) × (get mem ksuf 5 3 2 4 store 1 100 17 ≡ some (s', upper_map (load mem 100 17)))
    × IsLayer mem ksuf 5 3 2 (view mem ksuf 5 3 2 s') 2 1 upper_map
get_lem_example =
    get_lem mem mem_valid ksuf 5 3 2 2 4 store 1 100 17 upper_map two_layers (omega arith)
