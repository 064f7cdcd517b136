-- ===== src/Log/Links.antt =====
-- What the pointer writes of enqueue and dequeue do to the `next` links and the values of a heap.
use to_do_list_public.Common.{
  ℕ, ◌≡◌, refl, Option, none, some, arith, ◌==◌, if◌then◌else◌, Option-cases, inl, inr,
}
use to_do_list_public.Log.Store.{
  Ptr, LogNode, Heap, LogState, Run, ok, Cmd, continue, node_at, put_node, load, set_next, set_prev,
}

unfoldable pub next_of : Heap → Ptr → Option Ptr
next_of h p = elim (node_at h p) [ none ↦ none | some n ↦ some n.next ]

unfoldable pub val_of : Heap → Ptr → Option ℕ
val_of h p = elim (node_at h p) [ none ↦ none | some n ↦ some n.val ]

-- a command that ends normally, in a result and a state for which `P` holds
abbrev pub Returns : {A : Type 0} → Run A → (A → LogState → Type 0) → Type 0
Returns {A} r P = (a : A) × (s : LogState) × (r ≡ ok a s) × P a s

-- A run that returns, followed by a command.
pub bind :
    {A B : Type 0} {P : A → LogState → Type 0} {Q : B → LogState → Type 0} {r : Run A}
    {k : A → Cmd B}
    → Returns r P
    → ((a : A) (s : LogState) → P a s → Returns (k a s) Q)
    → Returns (continue r k) Q
bind (a, s, run, p) next = let (b, t, run', q) = next a s p in (b, t, rw run run', q)

pub mono :
    {A : Type 0} {P Q : A → LogState → Type 0} {r : Run A}
    → Returns r P
    → ((a : A) (s : LogState) → P a s → Q a s)
    → Returns r Q
mono (a, s, run, p) weaken = (a, s, run, weaken a s p)

-- from `s` to `s'` only the links changed, to `links`
pub record Relinked (s : LogState) (links : Ptr → Option Ptr) (s' : LogState) : Type 0 where
  pub same_svr : s'.svr ≡ s.svr
  pub next : (a : Ptr) → next_of s'.heap a ≡ links a
  pub val : (a : Ptr) → val_of s'.heap a ≡ val_of s.heap a

module _ (p : Ptr) {x : Ptr} (s : LogState) (node : next_of s.heap p ≡ some x) where
  pub load_lem : (n : LogNode) × (load p s ≡ ok n s) × (n.next ≡ x)
  unfolding load next_of
  load_lem = elim (Option-cases (node_at s.heap p)) [
    | inl e ↦ absurd (cc (e, node))
    | inr (n, e) ↦ (n, ground arith, ground arith)
  ]

  pub set_next_lem :
      (q : Ptr)
      → Returns
          (set_next p q s)
          (λ _. Relinked s (λ a. if a == p then some q else next_of s.heap a))
  unfolding set_next next_of val_of
  set_next_lem q = elim (Option-cases (node_at s.heap p)) [
    | inl e ↦ absurd (ground arith)
    | inr (n, e) ↦ (
      tt,
      record s { heap = put_node s.heap p (record n { next = q }) },
      ground arith,
      record { same_svr = refl; next = λ a. ground arith; val = λ a. ground arith },
    )
  ]

  pub set_prev_lem : (q : Ptr) → Returns (set_prev p q s) (λ _. Relinked s (next_of s.heap))
  unfolding set_prev next_of val_of
  set_prev_lem q = elim (Option-cases (node_at s.heap p)) [
    | inl e ↦ absurd (ground arith)
    | inr (n, e) ↦ (
      tt,
      record s { heap = put_node s.heap p (record n { prev = q }) },
      ground arith,
      record { same_svr = refl; next = λ a. ground arith; val = λ a. ground arith },
    )
  ]
