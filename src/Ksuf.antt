-- ===== src/Ksuf.antt =====
-- masstree_struct.hh, `leaf<P>::assign_ksuf` and `ksuf`: the bags of a leaf's key suffixes, one
-- inside the leaf and one outside it that takes over when the first is full. An assertion that
-- fails, also that of the constructor of a bag and `masstree_invariant`, is `none`. `slots` are the slots that the loops go over: those below `p` while the leaf is
-- made, else those of the permutation.
pub mod Rounding
pub mod Copy
pub mod Takeover
pub mod Examples
use incll.Base.{
  ℕ, zero, suc, ◌+◌, ◌-◌, ◌/◌, ◌^◌, max, Bool, true, false, not, ◌&&◌, ◌==◌, if◌then◌else◌, Option,
  none, some, List, [], ◌∷◌, length, bit_and,
}
use incll.Leaf.{width, modstate_remove}
use incll.Stringbag.{Bag, get, assign, capacity, safe_size, construct}

-- 64 less the leading zeros of a word below 2 ^ `n`
unfoldable pub bit_length : ℕ → ℕ → ℕ
bit_length zero x = 0
bit_length (suc n) x = let half : ℕ = bit_length n (x / 2) in if x == 0 then 0 else suc half

unfoldable pub iceil_log2 : ℕ → ℕ
unfolding bit_length
iceil_log2 x = 2 ^ (bit_length 64 x - (if bit_and x (x - 1) == 0 then 1 else 0))

-- `extra` is whether `extrasize64_` is positive.
pub record Suffixes : Type 0 where
  pub external : Option Bag
  pub iksuf : Bag
  pub extra : Bool
  pub modstate : ℕ

unfoldable pub ksuf : Suffixes → ℕ → List ℕ
ksuf f q = elim f.external [ none ↦ get 8 f.iksuf q | some b ↦ get 16 b q ]

module _ (has_ksuf : ℕ → Bool) (p : ℕ) where
  unfoldable pub sum_lengths : Suffixes → List ℕ → ℕ
  unfolding ksuf
  sum_lengths f [] = 0
  sum_lengths f (q ∷ slots) =
      (if not (q == p) && has_ksuf q then length (ksuf f q) else 0) + sum_lengths f slots

  unfoldable pub copy_ksufs : Suffixes → List ℕ → Bag → Option Bag
  unfolding ksuf
  copy_ksufs f [] nksuf = some nksuf
  copy_ksufs f (q ∷ slots) nksuf =
      let r : Bag × Bool = assign 16 nksuf q (ksuf f q) in
      let skipped : Option Bag = copy_ksufs f slots nksuf in
      let copied : Option Bag = copy_ksufs f slots r.0 in
      if not (q == p) && has_ksuf q then if r.1 then copied else none else skipped

  -- The part of `assign_ksuf` that makes a new bag, in memory `mem`
  unfoldable pub new_ksuf : Suffixes → List ℕ → List ℕ → (ℕ → ℕ) → Option Suffixes
  unfolding sum_lengths copy_ksufs iceil_log2 safe_size construct
  new_ksuf f s slots mem =
      let needed : ℕ = iceil_log2 (safe_size 16 width (sum_lengths f slots + length s)) in
      let sz : ℕ = elim f.external [ none ↦ needed | some b ↦ max needed (capacity 16 b) ] in
      elim (construct 16 width sz mem) [
        | none ↦ none
        | some empty ↦ elim (copy_ksufs f slots empty) [
          | none ↦ none
          | some nksuf ↦
              let r : Bag × Bool = assign 16 nksuf p s in
              if r.1 && not (f.modstate == modstate_remove)
              then some (record {
                external = some r.0;
                iksuf = f.iksuf;
                extra = false;
                modstate = f.modstate;
              })
              else none
        ]
      ]

  unfoldable pub assign_internal : Suffixes → List ℕ → List ℕ → (ℕ → ℕ) → Option Suffixes
  unfolding new_ksuf
  assign_internal f s slots mem =
      let r : Bag × Bool = assign 8 f.iksuf p s in
      if f.extra && r.1 then some (record f { iksuf = r.0 }) else new_ksuf f s slots mem

  unfoldable pub assign_ksuf : Suffixes → List ℕ → List ℕ → (ℕ → ℕ) → Option Suffixes
  unfolding assign_internal
  assign_ksuf f s slots mem = elim f.external [
    | none ↦ assign_internal f s slots mem
    | some b ↦
        let r : Bag × Bool = assign 16 b p s in
        if r.1 then some (record f { external = some r.0 }) else assign_internal f s slots mem
  ]
