-- ===== src/Extlog/Buffer.antt =====
-- What the buffer holds after writes, and the entries of a log in it.
use incll.Base.{
  ℕ, zero, suc, ◌+◌, ◌*◌, ◌<◌, ◌≡◌, refl, sym, ap, ap₂, ◌∙◌, arith, List, [], ◌∷◌, length, ==_ne,
  ==_refl,
}
use incll.Extlog.{Node, write, read, put}

-- Writes leave everything before them alone.
pub write-below : (ws : List ℕ) (buf : ℕ → ℕ) (a k : ℕ) → k < a → write buf a ws k ≡ buf k
unfolding write
write-below [] buf a k h = refl
write-below (w ∷ ws) buf a k h =
    write-below ws (put buf a w) (a + 8) k (omega arith) ∙ rw (==_ne k a (omega arith)) refl

pub write-head : (w : ℕ) (ws : List ℕ) (buf : ℕ → ℕ) (a : ℕ) → write buf a (w ∷ ws) a ≡ w
unfolding write
write-head w ws buf a = write-below ws (put buf a w) (a + 8) a (omega arith) ∙ rw (==_refl a) refl

pub read-write : (ws : List ℕ) (buf : ℕ → ℕ) (a : ℕ) → read (write buf a ws) a (length ws) ≡ ws
unfolding read write
read-write [] buf a = refl
read-write (w ∷ ws) buf a = ap₂ ◌∷◌ (write-head w ws buf a) (read-write ws (put buf a w) (a + 8))

pub read-agree :
    (n : ℕ) (b c : ℕ → ℕ) (a : ℕ) → ((k : ℕ) → k < a + 8 * n → c k ≡ b k) → read c a n ≡ read b a n
unfolding read
read-agree zero b c a h = refl
read-agree (suc n) b c a h =
    ap₂ ◌∷◌ (h a (omega arith)) (read-agree n b c (a + 8) (λ k l. h k (omega arith)))

abbrev pub entry_length : Node → ℕ
entry_length n = 24 + 8 * length n.content

abbrev pub total : List Node → ℕ
total [] = 0
total (n ∷ ns) = entry_length n + total ns

-- The entry of a node stands at `a`.
pub record IsEntry (buf : ℕ → ℕ) (a : ℕ) (n : Node) : Type 0 where
  pub sized : buf a ≡ entry_length n
  pub address : buf (a + 8) ≡ n.addr
  pub mark : buf (a + 16) ≡ 18
  pub words : read buf (a + 24) (length n.content) ≡ n.content

-- The entries of the nodes stand one behind the other from `a` on.
abbrev pub Stored : (ℕ → ℕ) → ℕ → List Node → Type 0
Stored buf a [] = Unit
Stored buf a (n ∷ ns) = IsEntry buf a n × Stored buf (a + entry_length n) ns

pub IsEntry-agree :
    {b c : ℕ → ℕ} {a : ℕ} {n : Node}
    → ((k : ℕ) → k < a + entry_length n → c k ≡ b k)
    → IsEntry b a n
    → IsEntry c a n
IsEntry-agree {b = b} {c = c} {a = a} {n = n} h e = record {
  sized = h a (omega arith) ∙ e.sized;
  address = h (a + 8) (omega arith) ∙ e.address;
  mark = h (a + 16) (omega arith) ∙ e.mark;
  words = read-agree (length n.content) b c (a + 24) (λ k l. h k (omega arith)) ∙ e.words;
}

-- A write of a whole entry.
pub write-IsEntry :
    (n : Node) (buf : ℕ → ℕ) (a : ℕ)
    → IsEntry (write buf a (entry_length n ∷ n.addr ∷ 18 ∷ n.content)) a n
unfolding write
write-IsEntry n buf a =
    let b1 = put buf a (entry_length n) in
    let b2 = put b1 (a + 8) n.addr in
    let b3 = put b2 (a + 8 + 8) 18 in
    let e16 : a + 8 + 8 ≡ a + 16 = omega arith in
    let e24 : a + 8 + 8 + 8 ≡ a + 24 = omega arith in
    record {
      sized = write-head (entry_length n) (n.addr ∷ 18 ∷ n.content) buf a;
      address = write-head n.addr (18 ∷ n.content) b1 (a + 8);
      mark =
          ap (write b2 (a + 8 + 8) (18 ∷ n.content)) (sym e16)
          ∙ write-head 18 n.content b2 (a + 8 + 8);
      words =
          ap (λ x. read (write b3 (a + 8 + 8 + 8) n.content) x (length n.content)) (sym e24)
          ∙ read-write n.content b3 (a + 8 + 8 + 8);
    }
