-- ===== src/Key/Examples.antt =====
-- Keys in a memory that holds the string "masstree keys" at address 100.
use incll.Base.{ℕ, ◌-◌, ◌%◌, ◌<◌, ◌≡◌, refl, arith, min, List, [], ◌∷◌, get_or}
use incll.Ksearch.{negative, null}
use incll.Slice.{
  load, make_comparable, compare, net_to_host_order, big_endian, bytes, make, little_endian,
}
use incll.Slice.Order.{lex, then_by}
use incll.Key.{key, compare_ikey, suffix, unshift_all, full_string, unparse}
use incll.Key.Compare.{compare_ikey_lem}
use incll.Key.Shift.{shifts, unshift_all-shifts}
use incll.Key.Unparse.{unparse_lem}

abbrev text : List ℕ
text = 109 ∷ 97 ∷ 115 ∷ 115 ∷ 116 ∷ 114 ∷ 101 ∷ 101 ∷ 32 ∷ 107 ∷ 101 ∷ 121 ∷ 115 ∷ []

abbrev mem : ℕ → ℕ
mem a = get_or text (a - 100) 0 % 256

mem_valid : (a : ℕ) → mem a < 256
mem_valid a = omega arith

-- The two slices of "masstree keys" and "tree keys" are told apart by their first characters.
compare_test : compare_ikey (key mem 100 13) (make_comparable mem 104 9) 64 ≡ negative
unfolding compare_ikey key make_comparable compare net_to_host_order big_endian bytes make
    little_endian load
compare_test = refl

-- The string against its first 9 characters: one slice cannot tell.
compare_test2 : compare_ikey (key mem 100 13) (make_comparable mem 100 9) 64 ≡ null
unfolding compare_ikey key make_comparable compare net_to_host_order big_endian bytes make
    little_endian load
compare_test2 = refl

compare_ikey_lem_example :
    lex (load mem 100 13) (load mem 100 9)
    ≡ then_by
        (compare_ikey (key mem 100 13) (make_comparable mem 100 9) 64)
        (lex (suffix mem (key mem 100 13)) (load mem 108 1))
unfolding key
compare_ikey_lem_example =
    compare_ikey_lem mem (key mem 100 13) 100 9 64 mem_valid refl (λ h. absurd (omega (arith, h)))
      (λ h. omega arith)

unshift_all-shifts_example :
    (unshift_all mem (shifts mem 1 (key mem 100 13)) ≡ key mem 100 13)
    × (full_string mem (shifts mem 1 (key mem 100 13)) ≡ load mem 100 13)
unshift_all-shifts_example = unshift_all-shifts mem mem_valid 100 13 1 (omega arith)

unparse_lem_example : unparse mem (key mem 100 13) 20 ≡ load mem 100 (min 13 20)
unfolding key
unparse_lem_example = unparse_lem mem (key mem 100 13) 20 mem_valid refl
