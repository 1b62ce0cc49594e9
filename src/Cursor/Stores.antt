-- ===== src/Cursor/Stores.antt =====
-- What holds in every state between the stores of an insertion.
use incll.Base.{All, ℕ, ◌≡◌, refl, List, [], ◌∷◌, ◌++◌, set, leb, Bool-cases, inl, inr}
use incll.Leaf.{Leaf, State}
use incll.Cursor.{after, last, assign, free, insert_states, store_value, finish_insert}

-- A store to the leaf of a state
abbrev pub put : (Leaf → Leaf) → State → State
put store s = record s { node = store s.node }

pub last-append : (s : State) (xs ys : List State) → last s (xs ++ ys) ≡ last (last s xs) ys
unfolding last
last-append s [] ys = refl
last-append s (x ∷ xs) ys = last-append x xs ys

module _ (P : State → Type 0) where
  pub last-All : (s : State) (ts : List State) → P s → All P ts → P (last s ts)
  unfolding last
  last-All s [] h all = h
  last-All s (t ∷ ts) h all = last-All t ts all.0 all.1

  abbrev pub Keeps : (Leaf → Leaf) → Type 0
  Keeps store = (t : State) → P t → P (put store t)

  pub after-All :
      (stores : List (Leaf → Leaf)) (s : State) → All Keeps stores → P s → All P (after stores s)
  unfolding after
  after-All [] s keeps h = tt
  after-All (store ∷ stores) s keeps h =
      (keeps.0 s h, after-All stores (put store s) keeps.1 (keeps.0 s h))

-- The stores of an insertion into slot `p` keep a predicate.
pub record IsClosed (p : ℕ) (P : State → Type 0) : Type 0 where
  pub value : (a : ℕ) → Keeps P (λ n. record n { lv = set n.lv p a })
  pub key : (a : ℕ) → Keeps P (λ n. record n { ikey0 = set n.ikey0 p a })
  pub keylen : (a : ℕ) → Keeps P (λ n. record n { keylenx = set n.keylenx p a })
  pub bag : (a : ℕ) → Keeps P (λ n. record n { ksuf = a })
  pub permutation : (a : ℕ) (t : State) → P t → P (put (λ n. record n { permutation = a }) t)

module _ (p : ℕ) (P : State → Type 0) (closed : IsClosed p P) where
  assign-All : (ikey len bag : ℕ) → All (Keeps P) (assign p ikey len bag)
  unfolding assign
  assign-All ikey len bag = elim (Bool-cases (leb len 8)) [
    | inl e ↦ rw e (closed.value 0, (closed.key ikey, (closed.keylen len, tt)))
    | inr e ↦ rw e (closed.value 0, (closed.key ikey, (closed.keylen 64, (closed.bag bag, tt))))
  ]

  -- From the log on until the key counts
  pub slot-All :
      (i v ikey len bag : ℕ) (body : Leaf → Leaf) (s : State)
      → P s
      → All P (after (assign p ikey len bag) s)
        × All P (insert_states i v body (free p) (last s (after (assign p ikey len bag) s)))
  unfolding insert_states store_value finish_insert
  slot-All i v ikey len bag body s h =
      let all = after-All P (assign p ikey len bag) s (assign-All ikey len bag) h in
      let stored = closed.value v _ (last-All P s _ h all) in
      (all, (stored, (closed.permutation _ _ stored, tt)))
