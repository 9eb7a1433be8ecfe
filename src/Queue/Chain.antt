-- ===== src/Queue/Chain.antt =====
-- What the nodes of kernel/src/misc/queue.c stand for.
use omega_os.Base.{
  ℕ, ◌≡◌, ◌≢◌, refl, inl, inr, Bool-cases, Bool, true, false, ◌||◌, Option, none, some, List, [],
  ◌∷◌, ◌++◌, arith, ◌==◌, length,
}
use omega_os.Queue.{Queue, QueueNode, node, write, null}

-- Address and item of each node, in order.
abbrev pub Cells : Type 0
Cells = List (ℕ × ℕ)

abbrev pub has : ℕ → Cells → Bool
has a [] = false
has a ((p, d) ∷ xs) = (a == p) || has a xs

-- From `p` the nodes `xs` follow one another up to the null pointer.
abbrev pub Chain : (ℕ → Option QueueNode) → ℕ → Cells → Type 0
Chain m p [] = p ≡ null
Chain m p ((a, d) ∷ xs) =
    (p ≡ a) × (a ≢ null) × (has a xs ≡ false) × ((q : ℕ) × (m a ≡ some (node d q)) × Chain m q xs)

-- The address of the last node.
abbrev pub last : Cells → ℕ
last [] = null
last ((a, d) ∷ []) = a
last (x ∷ y ∷ xs) = last (y ∷ xs)

abbrev pub items : Cells → List ℕ
items [] = []
items ((a, d) ∷ xs) = d ∷ items xs

-- A queue that nobody holds, with these nodes.
pub record IsQueue (q : Queue) (xs : Cells) : Type 0 where
  pub chain : Chain q.mem q.front xs
  pub rear : q.rear ≡ last xs
  pub count : q.count ≡ length xs
  pub lock : q.lock ≡ false

-- A chain is not touched by a write elsewhere.
pub Chain-write :
    (m : ℕ → Option QueueNode) (a : ℕ) (c : Option QueueNode) (p : ℕ) (xs : Cells)
    → Chain m p xs
    → has a xs ≡ false
    → Chain (write m a c) p xs
Chain-write m a c p [] ch out = ch
Chain-write m a c p ((b, d) ∷ xs) (e, ne, fresh, (q, at, rest)) out =
    (e, ne, fresh, (q, ground arith, Chain-write m a c q xs rest (ground arith)))

pub has_of_none :
    (m : ℕ → Option QueueNode) (a p : ℕ) (xs : Cells) → Chain m p xs → m a ≡ none → has a xs ≡ false
has_of_none m a p [] ch out = refl
has_of_none m a p ((b, d) ∷ xs) (e, ne, fresh, (q, at, rest)) out =
    ground (arith, has_of_none m a q xs rest)

pub has-last : (x : ℕ × ℕ) (xs : Cells) → has (last (x ∷ xs)) (x ∷ xs) ≡ true
has-last x [] = ground arith
has-last x (y ∷ xs) = ground (arith, has-last y xs)

pub has-append : (a : ℕ) (xs ys : Cells) → has a (xs ++ ys) ≡ (has a xs || has a ys)
has-append a [] ys = refl
has-append a (x ∷ xs) ys = ground (arith, has-append a xs ys)

pub ne_of_has : (a b : ℕ) (xs : Cells) → has a xs ≡ false → has b xs ≡ true → (a == b) ≡ false
ne_of_has a b xs out inside = elim (Bool-cases (a == b)) [
  | inl e ↦ let same : a ≡ b = ground arith in cc
  | inr e ↦ e
]

-- Linking a new last node behind a chain that is not empty.
pub Chain-snoc :
    (m : ℕ → Option QueueNode) (t d p : ℕ) (x : ℕ × ℕ) (xs : Cells)
    → Chain m p (x ∷ xs)
    → t ≢ null
    → m t ≡ some (node d null)
    → has t (x ∷ xs) ≡ false
    → (n : QueueNode) × (m (last (x ∷ xs)) ≡ some n)
      × (last (x ∷ xs) ≢ null)
      × Chain (write m (last (x ∷ xs)) (some (record n { next = t }))) p ((x ∷ xs) ++ (t, d) ∷ [])
Chain-snoc m t d p (a, v) [] (e, ne, fresh, (q, at, rest)) nt new out = (
  node v q,
  at,
  ne,
  (e, ne, ground arith, (t, ground arith, (refl, nt, refl, (null, ground arith, refl)))),
)
Chain-snoc m t d p (a, v) (y ∷ ys) (e, ne, fresh, (q, at, rest)) nt new out =
    let (n, found, nn, ch) = Chain-snoc m t d q y ys rest nt new (ground arith) in
    let apart = ne_of_has a (last (y ∷ ys)) (y ∷ ys) fresh (has-last y ys) in
    let new_fresh : has a ((y ∷ ys) ++ (t, d) ∷ []) ≡ false =
      ground (arith, has-append a (y ∷ ys) ((t, d) ∷ [])) in
    (n, found, nn, (e, ne, new_fresh, (q, rw apart at, ch)))
