-- ===== src/Circular/Examples.antt =====
-- Words around the wrap.
use incll.Base.{ℕ, ◌-◌, ◌^◌, ◌≡◌, arith, true, false}
use incll.Circular.{plus, minus, less}
use incll.Circular.Order.{less-plus}

abbrev greatest : ℕ
greatest = 2 ^ 64 - 1

less-plus_example :
    (less greatest (plus greatest 5) ≡ true)
    × (less (plus greatest 5) greatest ≡ false)
    × (minus (plus greatest 5) 5 ≡ greatest)
    × (less greatest greatest ≡ false)
    × (less (plus greatest 5) (plus greatest 5) ≡ false)
    × (less greatest (plus greatest (2 ^ 63)) ≡ true)
    × (less (plus greatest (2 ^ 63)) greatest ≡ true)
less-plus_example = less-plus greatest 5 (omega arith) (omega arith) (omega arith)
