-- ===== src/Incll/Examples.antt =====
-- A value logged and recovered.
use incll.Base.{◌+◌, ◌%◌, ◌≡◌, refl, arith, true, false, [], ◌∷◌, set}
use incll.Incll.{
  set_loggedepoch, set_lv_idx_ge, recover_lv, recover_lv2, is_cl_valid, get_loggedepoch, is_le_diff,
}
use incll.Incll.Laws.{recover-set_lv_idx_ge}

recover-set_lv_idx_ge_example :
    let w = set_loggedepoch (set_lv_idx_ge 7 4096 2 9) 9 in
    (recover_lv w (1 ∷ 2 ∷ 3 ∷ []) ≡ set (1 ∷ 2 ∷ 3 ∷ []) 2 4096)
    × (recover_lv2 w (1 ∷ 2 ∷ 3 ∷ []) ≡ set (1 ∷ 2 ∷ 3 ∷ []) (2 + 7) 4096)
    × (is_cl_valid w ≡ true)
    × (get_loggedepoch w ≡ 9 % 128)
    × (is_le_diff w 9 ≡ false)
recover-set_lv_idx_ge_example =
    recover-set_lv_idx_ge 7 4096 2 9 (1 ∷ 2 ∷ 3 ∷ []) (omega arith) (omega arith) refl (omega arith)
