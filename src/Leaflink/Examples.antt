-- ===== src/Leaflink/Examples.antt =====
-- Three leaves in a list, and a fourth one.
use incll.Base.{◌≡◌, refl, arith, [], ◌∷◌, ◌==◌, if◌then◌else◌, none, some}
use incll.Leaflink.{Links, link_split, unlink, link_split_concurrent, is_marked}
use incll.Leaflink.Chain.{IsList}
use incll.Leaflink.Refines.{link_split-IsList, unlink-IsList}
use incll.Leaflink.Concurrent.{link_split_concurrent_lem}

-- The leaves 16, 32 and 48 in this order.
abbrev three : Links
three = record {
  next = λ a. if a == 16 then 32 else if a == 32 then 48 else 0;
  prev = λ a. if a == 48 then 32 else if a == 32 then 16 else 0;
}

three-IsList : IsList three (16 ∷ []) 32 (48 ∷ [])
three-IsList = record {
  before = (refl, refl, tt);
  after = (refl, refl, refl);
  front = (tt, tt);
  apart = (((λ e. omega (arith, e)), ((λ e. omega (arith, e)), tt)), tt);
  back = (((λ e. omega (arith, e)), tt), (tt, tt));
  real = ((λ e. omega (arith, e)), ((λ e. omega (arith, e)), tt));
}

link_split-IsList_example : IsList (link_split 32 64 three) (16 ∷ []) 32 (64 ∷ 48 ∷ [])
link_split-IsList_example =
    link_split-IsList three (16 ∷ []) 32 (48 ∷ []) 64 three-IsList (λ e. omega (arith, e))
      (λ e. omega (arith, e)) ((λ e. omega (arith, e)), tt) ((λ e. omega (arith, e)), tt)

unlink-IsList_example : IsList (unlink 48 three) (16 ∷ []) 32 []
unlink-IsList_example = unlink-IsList three (16 ∷ []) 32 48 [] three-IsList

link_split_concurrent_lem_example :
    link_split_concurrent 32 64 three
    ≡ (if is_marked (three.next 32) then none else some (link_split 32 64 three))
link_split_concurrent_lem_example = link_split_concurrent_lem 32 64 three (λ e. omega (arith, e))
