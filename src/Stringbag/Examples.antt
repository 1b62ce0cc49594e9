-- ===== src/Stringbag/Examples.antt =====
-- A bag with offsets of 16 bits for 14 strings, as a leaf has one.
use incll.Base.{◌≡◌, refl, arith, true, [], ◌∷◌, replicate}
use incll.Stringbag.{Bag, stringbag, assign, overhead, capacity, put_at}
use incll.Stringbag.Assign.{IsBag, Assigned, assign-IsBag, stringbag-IsBag}

abbrev bag : Bag
bag = stringbag 16 14 128 (λ a. 0)

bag-IsBag : IsBag 16 bag
unfolding overhead
bag-IsBag = stringbag-IsBag 16 14 128 (λ a. 0) (omega arith) (omega arith)

assign-IsBag_example :
    Assigned 16 bag 2 (107 ∷ 101 ∷ 121 ∷ []) (assign 16 bag 2 (107 ∷ 101 ∷ 121 ∷ []))
assign-IsBag_example = assign-IsBag 16 bag 2 (107 ∷ 101 ∷ 121 ∷ []) bag-IsBag

-- A bag of the greatest size that is allowed: a string that fills it makes the size in use 0.
abbrev largest : Bag
largest = record { size = 65526; last = 65535; info = λ p. record { pos = 0; len = 0 }; s = λ a. 0 }

wrap_test : let r = assign 16 largest 0 (replicate 10 97) in (r.1 ≡ true) × (r.0.size ≡ 0)
unfolding assign capacity put_at
wrap_test = (refl, refl)
