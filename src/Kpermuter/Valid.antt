-- ===== src/Kpermuter/Valid.antt =====
-- Words that permute the slots 0 to `width - 1`, and the operations on them.
use incll.Base.{
  ℕ, ◌+◌, ◌-◌, ◌^◌, ◌≤◌, ◌<◌, bit_and, bit_or, ◌≡◌, sym, arith, ltb, leb, ◌==◌, ◌∙◌, inl, inr,
  Bool-cases, ◌||◌, if◌then◌else◌, shr,
}
use incll.Bits.Split.{bit_and-lt, bit_or-lt}
use incll.Kpermuter.{size, elem, insert_from_back, remove, remove_to_back}
use incll.Kpermuter.Insert.{insert_from_back_lem}
use incll.Kpermuter.Remove.{remove_lem}
use incll.Kpermuter.ToBack.{remove_to_back_lem, mask16-lt}

pub record IsPermuter (width x : ℕ) : Type 0 where
  pub word : x < 2 ^ 64
  pub narrow : width ≤ 15
  pub sized : size x ≤ width
  pub bounded : (j : ℕ) → j < width → elem x j < width
  pub distinct : (i j : ℕ) → i < width → j < width → elem x i ≡ elem x j → i ≡ j

-- The elements of the new word stand at other positions of the old one.
moved-IsPermuter :
    (width x q : ℕ) (old : ℕ → ℕ)
    → IsPermuter width x
    → q < 2 ^ 64
    → size q ≤ width
    → ((j : ℕ) → j < width → old j < width)
    → ((i j : ℕ) → i < width → j < width → old i ≡ old j → i ≡ j)
    → ((j : ℕ) → j < width → elem q j ≡ elem x (old j))
    → IsPermuter width q
moved-IsPermuter width x q old v hq hs inside injective same = record {
  word = hq;
  narrow = v.narrow;
  sized = hs;
  bounded = λ j h. rw (same j h) (v.bounded (old j) (inside j h));
  distinct = λ i j hi hj e.
      injective i j hi hj
        (v.distinct (old i) (old j) (inside i hi) (inside j hj) (sym (same i hi) ∙ e ∙ same j hj));
}

and_or-lt :
    (a b c d e : ℕ)
    → a < 2 ^ 64
    → b < 2 ^ 64
    → c < 2 ^ 64
    → d < 2 ^ 64
    → e < 2 ^ 64
    → bit_or (bit_or (bit_and a b) c) (bit_and d e) < 2 ^ 64
and_or-lt a b c d e ha hb hc hd he =
    bit_or-lt 64 _ _ (bit_or-lt 64 _ _ (bit_and-lt 64 a b ha hb) hc) (bit_and-lt 64 d e hd he)

shr-lt : (x : ℕ) → x < 2 ^ 64 → shr x 4 < 2 ^ 64
shr-lt x h = omega arith

insert_from_back-lt : (width x i : ℕ) → (insert_from_back width x i).0 < 2 ^ 64
unfolding insert_from_back
insert_from_back-lt width x i =
    and_or-lt _ _ _ _ _ (omega arith) (mask16-lt i) (omega arith) (omega arith) (omega arith)

remove-lt : (width x i : ℕ) → x < 2 ^ 64 → remove width x i < 2 ^ 64
unfolding remove
remove-lt width x i h = elim (Bool-cases (size x == i + 1)) [
  | inl e ↦ rw e (omega arith)
  | inr e ↦ rw e (
      and_or-lt _ _ _ _ _ (omega arith) (omega arith)
        (bit_and-lt 64 _ _ (shr-lt _ (bit_and-lt 64 x _ h (omega arith))) (omega arith))
        (omega arith) (omega arith))
]

remove_to_back-lt : (width x i : ℕ) → x < 2 ^ 64 → remove_to_back width x i < 2 ^ 64
unfolding remove_to_back
remove_to_back-lt width x i h =
    bit_or-lt 64 _ _
      (bit_or-lt 64 _ _ (bit_and-lt 64 _ _ (omega arith) (omega arith))
        (bit_and-lt 64 _ _ (shr-lt _ (bit_and-lt 64 x _ h (mask16-lt width))) (omega arith)))
      (omega arith)

abbrev inserted : ℕ → ℕ → ℕ → ℕ
inserted width i j = if ltb j i then j else if j == i then width - 1 else j - 1

-- Where a word permutes the slots of the leaf and has room, inserting keeps it so.
pub insert_from_back-IsPermuter :
    (width x i : ℕ)
    → IsPermuter width x
    → i < width
    → size x < width
    → IsPermuter width (insert_from_back width x i).0
insert_from_back-IsPermuter width x i v below room =
    let l = insert_from_back_lem width x i v.narrow v.word below room in
    moved-IsPermuter width x _ (inserted width i) v (insert_from_back-lt width x i)
      (omega (arith, l.1)) (λ j h. ground arith) (λ j k hj hk. ground arith)
      (λ j h. ground (arith, l.0, l.2, l.3 j, l.4 j))

abbrev removed : ℕ → ℕ → ℕ → ℕ
removed s i j = if ltb j i || leb s j then j else if j + 1 == s then i else j + 1

-- Where a word permutes the slots of the leaf, removing a position in use keeps it so.
pub remove-IsPermuter :
    (width x i : ℕ) → IsPermuter width x → i < size x → IsPermuter width (remove width x i)
remove-IsPermuter width x i v below =
    let l = remove_lem width x i v.word (omega (arith, v.sized, v.narrow)) below in
    moved-IsPermuter width x _ (removed (size x) i) v (remove-lt width x i v.word)
      (omega (arith, l.0, v.sized)) (λ j h. ground (arith, v.sized)) (λ j k hj hk. ground arith)
      (λ j h. ground (arith, v.narrow, l.0, l.1, l.2 j, l.3 j, l.4 j))

abbrev removed_to_back : ℕ → ℕ → ℕ → ℕ
removed_to_back width i j = if ltb j i then j else if j + 1 == width then i else j + 1

-- Where a word permutes the slots of the leaf and is not empty, removing to the back keeps it so.
pub remove_to_back-IsPermuter :
    (width x i : ℕ)
    → IsPermuter width x
    → 0 < size x
    → i < width
    → IsPermuter width (remove_to_back width x i)
remove_to_back-IsPermuter width x i v held below =
    let l = remove_to_back_lem width x i v.narrow v.word held below in
    moved-IsPermuter width x _ (removed_to_back width i) v (remove_to_back-lt width x i v.word)
      (omega (arith, l.0, v.sized)) (λ j h. ground arith) (λ j k hj hk. ground arith)
      (λ j h. ground (arith, l.1, l.2 j, l.3 j))
