-- ===== src/Leaflink/Refines.antt =====
-- The operations on the stores do to the list of leaves what their names say.
use incll.Base.{ℕ, ◌≡◌, ◌≢◌, sym, ◌∙◌, arith, List, [], ◌∷◌, All-map, All-map2, ◌==◌, if◌then◌else◌}
use incll.Leaflink.{Links, link_split, unlink}
use incll.Leaflink.Chain.{Avoids, IsList, Before-keep, After-keep}

-- What `link_split` stores, leaf by leaf, where the next leaf is `x` or null.
module _ (h : Links) (q nr x : ℕ) (e : h.next q ≡ x) (new : nr ≢ q) where
  link_next :
      (a : ℕ)
      → (link_split q nr h).next a ≡ (if a == q then nr else if a == nr then x else h.next a)
  unfolding link_split
  link_next a = ground arith

  link_prev :
      (a : ℕ)
      → nr ≢ x
      → (link_split q nr h).prev a ≡ (
          if x == 0
          then (if a == nr then q else h.prev a)
          else if a == x
          then nr
          else if a == nr
          then q
          else h.prev a)
  unfolding link_split
  link_prev a other = ground arith

-- The entries that a `link_split` leaves alone.
module _ (h : Links) (q nr x : ℕ) (e : h.next q ≡ x) (new : nr ≢ q) (other : nr ≢ x) where
  same_next : (a : ℕ) → a ≢ q → nr ≢ a → (link_split q nr h).next a ≡ h.next a
  same_next a p r = link_next h q nr x e new a ∙ ground (arith, p, r)

  same_prev : (a : ℕ) → a ≢ x → nr ≢ a → (link_split q nr h).prev a ≡ h.prev a
  same_prev a p r = link_prev h q nr x e new a other ∙ ground (arith, p, r)

-- Linking a new leaf, which is not null and not in the list, behind a leaf of a list puts it there,
-- in both directions, and keeps the rest of the list.
pub link_split-IsList :
    (h : Links) (ns : List ℕ) (q : ℕ) (post : List ℕ) (nr : ℕ)
    → IsList h ns q post
    → nr ≢ 0
    → nr ≢ q
    → Avoids nr ns
    → Avoids nr post
    → IsList (link_split q nr h) ns q (nr ∷ post)
link_split-IsList h ns q [] nr l real new front back =
    let e : h.next q ≡ 0 = l.after in
    let k : Links = link_split q nr h in
    record {
      before =
          Before-keep h k ns q
            (All-map2 (λ n. Avoids n (q ∷ [])) (λ n. nr ≢ n) (λ n. k.next n ≡ h.next n) ns
              (λ n a b. same_next h q nr 0 e new real n a.0 b) l.apart front)
            (All-map2 (λ n. Avoids n (q ∷ [])) (λ n. nr ≢ n) (λ n. k.prev n ≡ h.prev n) ns
              (λ n a b. link_prev h q nr 0 e new n real ∙ ground (arith, b)) l.apart front)
            (link_prev h q nr 0 e new q real ∙ ground (arith, new)) l.before;
      after = (
        link_next h q nr 0 e new q ∙ ground arith,
        link_prev h q nr 0 e new nr real ∙ ground arith,
        link_next h q nr 0 e new nr ∙ ground (arith, new),
      );
      front = l.front;
      apart =
          All-map2 (λ n. Avoids n (q ∷ [])) (λ n. nr ≢ n) (λ n. Avoids n (q ∷ nr ∷ [])) ns
            (λ n a b. (a.0, ((λ s. b (sym s)), tt))) l.apart front;
      back = (((λ s. new (sym s)), tt), (tt, tt));
      real = (l.real.0, ((λ s. real (sym s)), tt));
    }
link_split-IsList h ns q (x ∷ post) nr l real new front back =
    let e : h.next q ≡ x = l.after.0 in
    let k : Links = link_split q nr h in
    let other : nr ≢ x = back.0 in
    record {
      before =
          Before-keep h k ns q
            (All-map2 (λ n. Avoids n (q ∷ x ∷ post)) (λ n. nr ≢ n) (λ n. k.next n ≡ h.next n) ns
              (λ n a b. same_next h q nr x e new other n a.0 b) l.apart front)
            (All-map2 (λ n. Avoids n (q ∷ x ∷ post)) (λ n. nr ≢ n) (λ n. k.prev n ≡ h.prev n) ns
              (λ n a b. same_prev h q nr x e new other n a.1.0 b) l.apart front)
            (same_prev h q nr x e new other q l.back.0.0 new) l.before;
      after = (
        link_next h q nr x e new q ∙ ground arith,
        link_prev h q nr x e new nr other ∙ ground (arith, other, l.real.1.0),
        (
          link_next h q nr x e new nr ∙ ground (arith, new),
          link_prev h q nr x e new x other ∙ ground (arith, l.real.1.0),
          After-keep h k x post (same_next h q nr x e new other x (λ s. l.back.0.0 (sym s)) other)
              (All-map2 (λ y. q ≢ y) (λ y. nr ≢ y) (λ y. k.next y ≡ h.next y) post
                (λ y a b. same_next h q nr x e new other y (λ s. a (sym s)) b) l.back.0.1 back.1)
              (All-map2 (λ y. x ≢ y) (λ y. nr ≢ y) (λ y. k.prev y ≡ h.prev y) post
                (λ y a b. same_prev h q nr x e new other y (λ s. a (sym s)) b) l.back.1.0 back.1)
              l.after.2,
        ),
      );
      front = l.front;
      apart =
          All-map2 (λ n. Avoids n (q ∷ x ∷ post)) (λ n. nr ≢ n) (λ n. Avoids n (q ∷ nr ∷ x ∷ post))
            ns (λ n a b. (a.0, ((λ s. b (sym s)), a.1))) l.apart front;
      back = (((λ s. new (sym s)), l.back.0), (back, l.back.1));
      real = (l.real.0, ((λ s. real (sym s)), l.real.1));
    }

-- What `unlink` stores, leaf by leaf, with `p` before `q` and `x` behind it.
module _ (h : Links) (q p x : ℕ) (e : h.next q ≡ x) (f : h.prev q ≡ p) (other : q ≢ x) where
  unlink_next : (a : ℕ) → (unlink q h).next a ≡ (if a == p then x else h.next a)
  unfolding unlink
  unlink_next a = ground arith

  unlink_prev :
      (a : ℕ) → (unlink q h).prev a ≡ (if x == 0 then h.prev a else if a == x then p else h.prev a)
  unfolding unlink
  unlink_prev a = ground arith

  kept_next : (a : ℕ) → a ≢ p → (unlink q h).next a ≡ h.next a
  kept_next a r = unlink_next a ∙ ground (arith, r)

  kept_prev : (a : ℕ) → a ≢ x → (unlink q h).prev a ≡ h.prev a
  kept_prev a r = unlink_prev a ∙ ground (arith, r)

-- Unlinking a leaf of a list that has another one before it takes it out, in both directions, and
-- keeps the rest of the list.
pub unlink-IsList :
    (h : Links) (ns : List ℕ) (p q : ℕ) (post : List ℕ)
    → IsList h ns p (q ∷ post)
    → IsList (unlink q h) ns p post
unlink-IsList h ns p q [] l =
    let e : h.next q ≡ 0 = l.after.2 in
    let f : h.prev q ≡ p = l.after.1 in
    let other : q ≢ 0 = λ s. l.real.1.0 (sym s) in
    let k : Links = unlink q h in
    record {
      before =
          Before-keep h k ns p
            (All-map (λ n. Avoids n (p ∷ q ∷ [])) (λ n. k.next n ≡ h.next n) ns
              (λ n a. kept_next h q p 0 e f other n a.0) l.apart)
            (All-map (λ n. Avoids n (p ∷ q ∷ [])) (λ n. k.prev n ≡ h.prev n) ns
              (λ n a. unlink_prev h q p 0 e f other n) l.apart)
            (unlink_prev h q p 0 e f other p) l.before;
      after = unlink_next h q p 0 e f other p ∙ ground arith;
      front = l.front;
      apart =
          All-map (λ n. Avoids n (p ∷ q ∷ [])) (λ n. Avoids n (p ∷ [])) ns (λ n a. (a.0, tt))
            l.apart;
      back = (tt, tt);
      real = (l.real.0, tt);
    }
unlink-IsList h ns p q (x ∷ post) l =
    let e : h.next q ≡ x = l.after.2.0 in
    let f : h.prev q ≡ p = l.after.1 in
    let other : q ≢ x = l.back.1.0.0 in
    let k : Links = unlink q h in
    record {
      before =
          Before-keep h k ns p
            (All-map (λ n. Avoids n (p ∷ q ∷ x ∷ post)) (λ n. k.next n ≡ h.next n) ns
              (λ n a. kept_next h q p x e f other n a.0) l.apart)
            (All-map (λ n. Avoids n (p ∷ q ∷ x ∷ post)) (λ n. k.prev n ≡ h.prev n) ns
              (λ n a. kept_prev h q p x e f other n a.1.1.0) l.apart)
            (kept_prev h q p x e f other p l.back.0.1.0) l.before;
      after = (
        unlink_next h q p x e f other p ∙ ground arith,
        unlink_prev h q p x e f other x ∙ ground (arith, l.real.1.1.0),
        After-keep h k x post (kept_next h q p x e f other x (λ s. l.back.0.1.0 (sym s)))
            (All-map (λ y. p ≢ y) (λ y. k.next y ≡ h.next y) post
              (λ y a. kept_next h q p x e f other y (λ s. a (sym s))) l.back.0.1.1)
            (All-map (λ y. x ≢ y) (λ y. k.prev y ≡ h.prev y) post
              (λ y a. kept_prev h q p x e f other y (λ s. a (sym s))) l.back.1.1.0)
            l.after.2.2,
      );
      front = l.front;
      apart =
          All-map (λ n. Avoids n (p ∷ q ∷ x ∷ post)) (λ n. Avoids n (p ∷ x ∷ post)) ns
            (λ n a. (a.0, a.1.1)) l.apart;
      back = (l.back.0.1, l.back.1.1);
      real = (l.real.0, l.real.1.1);
    }
