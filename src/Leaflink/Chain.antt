-- ===== src/Leaflink/Chain.antt =====
-- When the stores hold a list of leaves, and what changes to other leaves leave of it.
use incll.Base.{ℕ, ◌≡◌, ◌≢◌, ◌∙◌, List, [], ◌∷◌, All}
use incll.Leaflink.{Links}

abbrev pub Avoids : ℕ → List ℕ → Type 0
Avoids a xs = All (λ x. a ≢ x) xs

-- The first of `ns` and then `q`.
abbrev pub head_or : List ℕ → ℕ → ℕ
head_or [] q = q
head_or (n ∷ ns) q = n

-- The leaves `ns` are linked one to the next and the last of them to `q`, both ways.
abbrev pub Before : Links → List ℕ → ℕ → Type 0
Before h [] q = Unit
Before h (n ∷ ns) q = (h.next n ≡ head_or ns q) × (h.prev (head_or ns q) ≡ n) × Before h ns q

-- Behind `q` come the leaves of the list, and no others.
abbrev pub After : Links → ℕ → List ℕ → Type 0
After h q [] = h.next q ≡ 0
After h q (x ∷ xs) = (h.next q ≡ x) × (h.prev x ≡ q) × After h x xs

abbrev pub Distinct : List ℕ → Type 0
Distinct [] = Unit
Distinct (x ∷ xs) = Avoids x xs × Distinct xs

-- The leaf `q` with those before it and those behind it, in order: all of them different, none of
-- them null.
pub record IsList (h : Links) (ns : List ℕ) (q : ℕ) (post : List ℕ) : Type 0 where
  pub before : Before h ns q
  pub after : After h q post
  pub front : Distinct ns
  pub apart : All (λ n. Avoids n (q ∷ post)) ns
  pub back : Distinct (q ∷ post)
  pub real : Avoids 0 (q ∷ post)

prev-head :
    (h k : Links) (ns : List ℕ) (q : ℕ)
    → All (λ n. k.prev n ≡ h.prev n) ns
    → k.prev q ≡ h.prev q
    → k.prev (head_or ns q) ≡ h.prev (head_or ns q)
prev-head h k [] q a b = b
prev-head h k (n ∷ ns) q a b = a.0

pub Before-keep :
    (h k : Links) (ns : List ℕ) (q : ℕ)
    → All (λ n. k.next n ≡ h.next n) ns
    → All (λ n. k.prev n ≡ h.prev n) ns
    → k.prev q ≡ h.prev q
    → Before h ns q
    → Before k ns q
Before-keep h k [] q a b c s = tt
Before-keep h k (n ∷ ns) q a b c s =
    (a.0 ∙ s.0, prev-head h k ns q b.1 c ∙ s.1, Before-keep h k ns q a.1 b.1 c s.2)

pub After-keep :
    (h k : Links) (q : ℕ) (xs : List ℕ)
    → k.next q ≡ h.next q
    → All (λ n. k.next n ≡ h.next n) xs
    → All (λ n. k.prev n ≡ h.prev n) xs
    → After h q xs
    → After k q xs
After-keep h k q [] a b c s = a ∙ s
After-keep h k q (x ∷ xs) a b c s = (a ∙ s.0, c.0 ∙ s.1, After-keep h k x xs b.0 b.1 c.1 s.2)
