-- ===== src/Log/Chain.antt =====
-- Chains of `next` links, as maps from pointers to pointers, away from any heap.
use to_do_list_public.Common.{
  ◌≡◌, refl, Option, some, Bool, true, false, ◌||◌, List, [], ◌∷◌, ◌++◌, arith, ◌==◌, if◌then◌else◌,
}
use to_do_list_public.Log.Store.{Ptr, null, Queue}

abbrev pub has : Ptr → List Ptr → Bool
has a [] = false
has a (p ∷ ps) = (a == p) || has a ps

-- from the node `p` the links lead through the distinct nodes `ps` to the node `t`
abbrev pub Chain : (Ptr → Option Ptr) → Ptr → List Ptr → Ptr → Type 0
Chain links p [] t = (p ≡ t) × ((x : Ptr) × (links p ≡ some x))
Chain links p (q ∷ ps) t = (links p ≡ some q) × (has p (q ∷ ps) ≡ false) × Chain links q ps t

abbrev pub Spans : (Ptr → Option Ptr) → Queue → List Ptr → Type 0
Spans links q [] = (q.head ≡ null) × (q.tail ≡ null)
Spans links q (p ∷ ps) = (q.head ≡ p) × Chain links p ps q.tail

-- the two maps of links agree on the nodes of a list
abbrev pub SameOn : List Ptr → (Ptr → Option Ptr) → (Ptr → Option Ptr) → Type 0
SameOn ps f g = (a : Ptr) → has a ps ≡ true → f a ≡ g a

pub Chain-frame :
    (f g : Ptr → Option Ptr) (p : Ptr) (ps : List Ptr) (t : Ptr)
    → Chain f p ps t
    → SameOn (p ∷ ps) g f
    → Chain g p ps t
Chain-frame f g p [] t c same = (c.0, (c.1.0, ground (arith, same p, c.1.1)))
Chain-frame f g p (q ∷ ps) t c same =
    (ground (arith, same p), c.1, Chain-frame f g q ps t c.2 (λ a h. same a (ground arith)))

pub Spans-frame :
    (f g : Ptr → Option Ptr) (q : Queue) (ps : List Ptr)
    → Spans f q ps
    → SameOn ps g f
    → Spans g q ps
Spans-frame f g q [] s same = s
Spans-frame f g q (p ∷ ps) s same = (s.0, Chain-frame f g p ps q.tail s.1 same)

-- the last node belongs to the chain, and its link can be read
pub Chain-last :
    (f : Ptr → Option Ptr) (p : Ptr) (ps : List Ptr) (t : Ptr)
    → Chain f p ps t
    → (has t (p ∷ ps) ≡ true) × ((x : Ptr) × (f t ≡ some x))
Chain-last f p [] t c = (ground arith, (c.1.0, ground (arith, c.1.1)))
Chain-last f p (q ∷ ps) t c = let r = Chain-last f q ps t c.2 in (ground arith, r.1)

-- every node of a chain can be read
pub Chain-first :
    (f : Ptr → Option Ptr) (p : Ptr) (ps : List Ptr) (t : Ptr)
    → Chain f p ps t
    → (x : Ptr) × (f p ≡ some x)
Chain-first f p [] t c = c.1
Chain-first f p (q ∷ ps) t c = (q, c.0)

pub has-append : (a : Ptr) (ps qs : List Ptr) → has a (ps ++ qs) ≡ (has a ps || has a qs)
has-append a [] qs = refl
has-append a (p ∷ ps) qs = ground (arith, has-append a ps qs)

-- linking a new node behind the last one
pub Chain-snoc :
    (f g : Ptr → Option Ptr) (p : Ptr) (ps : List Ptr) (t node first : Ptr)
    → Chain f p ps t
    → has node (p ∷ ps) ≡ false
    → ((a : Ptr) → g a ≡ (if a == t then some node else if a == node then some first else f a))
    → Chain g p (ps ++ node ∷ []) node
Chain-snoc f g p [] t node first c out e =
    (ground (arith, e p), ground arith, (refl, (first, ground (arith, e node))))
Chain-snoc f g p (q ∷ ps) t node first c out e = (
  ground (arith, e p, (Chain-last f q ps t c.2).0),
  ground (arith, has-append p ps (node ∷ [])),
  Chain-snoc f g q ps t node first c.2 (ground arith) e,
)
