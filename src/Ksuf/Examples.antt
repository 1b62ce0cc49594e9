-- ===== src/Ksuf/Examples.antt =====
-- A leaf with 64 bytes for suffixes, of which a second, long suffix has no room.
use incll.Base.{ℕ, ◌≡◌, refl, inl, arith, Bool, true, ◌==◌, none, some, [], ◌∷◌, replicate}
use incll.Stringbag.{Bag, stringbag, assign, get, overhead, capacity, put_at, store, safe_size}
use incll.Stringbag.Assign.{IsBag, assign-IsBag, stringbag-IsBag}
use incll.Slice.{load}
use incll.Ksuf.{Suffixes, ksuf, assign_ksuf, sum_lengths, iceil_log2, bit_length}
use incll.Ksuf.Takeover.{Kept, assign_ksuf-IsSuffixes}

abbrev memory : ℕ → ℕ
memory a = 0

abbrev inner : Bag
inner = (assign 8 (stringbag 8 14 64 memory) 0 (1 ∷ 2 ∷ 3 ∷ [])).0

inner-IsBag : IsBag 8 inner
unfolding overhead
inner-IsBag =
    (assign-IsBag 8 (stringbag 8 14 64 memory) 0 (1 ∷ 2 ∷ 3 ∷ [])
      (stringbag-IsBag 8 14 64 memory (omega arith) (omega arith))).bag

abbrev leaf : Suffixes
leaf = record { external = none; iksuf = inner; extra = true; modstate = 0 }

abbrev has_first : ℕ → Bool
has_first q = q == 0

first-ksuf : ksuf leaf 0 ≡ 1 ∷ 2 ∷ 3 ∷ []
unfolding ksuf get load assign put_at store stringbag capacity overhead
first-ksuf = refl

first-sum_lengths : sum_lengths has_first 1 leaf (0 ∷ []) ≡ 3
unfolding sum_lengths ksuf get load assign put_at store stringbag capacity overhead
first-sum_lengths = refl

assign_ksuf-IsSuffixes_example :
    (g : Suffixes) × (assign_ksuf has_first 1 leaf (replicate 40 97) (0 ∷ []) memory ≡ some g)
    × Kept has_first 1 leaf (replicate 40 97) (0 ∷ []) g
unfolding iceil_log2 bit_length safe_size overhead
assign_ksuf-IsSuffixes_example =
    assign_ksuf-IsSuffixes has_first 1 leaf (replicate 40 97) (0 ∷ []) memory
      (record { inner = inner-IsBag; outer = tt; alone = inl refl }) (omega arith)
      (rw first-ksuf (omega arith), tt) (rw first-sum_lengths (omega arith))
      (rw first-sum_lengths (omega arith)) (λ e. absurd (omega (arith, e)))
