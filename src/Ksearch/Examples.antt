-- ===== src/Ksearch/Examples.antt =====
-- A search among four keys that stand in the slots in reverse order.
use Prim.Native.Nat.{compare, Ordering}
use incll.Base.{ℕ, ◌-◌, ◌*◌, ◌≡◌, refl, arith, some}
use incll.Ksearch.{
  Sign, negative, null, positive, key_upper_bound_by, key_lower_bound_by, key_find_upper_bound_by,
  key_find_lower_bound_by, lower_loop,
}
use incll.Ksearch.Bounds.{IsSorted, IsUpper, IsLower}
use incll.Ksearch.Agree.{key_upper_bound_by_lem, key_lower_bound_by_lem}

abbrev reversed : ℕ → ℕ
reversed j = 3 - j

-- Slot `p` holds the key `100 - 10 * p`.
abbrev compare_key : ℕ → ℕ → Sign
compare_key ka p = elim (compare ka (100 - 10 * p)) [
  | Ordering.lt ↦ negative
  | Ordering.eq ↦ null
  | Ordering.gt ↦ positive
]

reversed-IsSorted : IsSorted reversed (compare_key 90) 4
reversed-IsSorted i j h k l = ground arith

key_upper_bound_by_lem_example :
    IsUpper reversed (compare_key 90) 4 (key_upper_bound_by reversed (compare_key 90) 4)
    × (key_upper_bound_by reversed (compare_key 90) 4
        ≡ key_find_upper_bound_by reversed (compare_key 90) 4)
key_upper_bound_by_lem_example =
    key_upper_bound_by_lem reversed (compare_key 90) 4 reversed-IsSorted

key_lower_bound_by_lem_example :
    IsLower reversed (compare_key 90) 4 (key_lower_bound_by reversed (compare_key 90) 4)
    × (key_lower_bound_by reversed (compare_key 90) 4
        ≡ key_find_lower_bound_by reversed (compare_key 90) 4)
key_lower_bound_by_lem_example =
    key_lower_bound_by_lem reversed (compare_key 90) 4 reversed-IsSorted

-- The wanted key stands at position 2, in slot 1.
lower_test : key_lower_bound_by reversed (compare_key 90) 4 ≡ record { i = 2; p = some 1 }
unfolding key_lower_bound_by lower_loop
lower_test = refl
