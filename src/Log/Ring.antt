-- ===== src/Log/Ring.antt =====
-- The shape of one queue in the heap, and the two cases of `enqueue_to`.
use to_do_list_public.Common.{
  ◌+◌, ◌≤◌, ◌<◌, ◌≡◌, refl, Option, some, true, false, List, [], ◌∷◌, ◌++◌, arith, ◌==◌,
  if◌then◌else◌, leb, pos, length, length-append,
}
use to_do_list_public.Log.Store.{Ptr, Queue, Heap, LogState}
use to_do_list_public.Log.Links.{
  next_of, val_of, Returns, bind, mono, Relinked, set_next_lem, set_prev_lem,
}
use to_do_list_public.Log.Chain.{has, Spans, Chain-last, Chain-first, Chain-snoc}
use to_do_list_public.Log.{link_in, enqueue_to}

-- `q` holds the nodes `ps`, the oldest first. What the last node's link holds does not matter:
-- after a `dequeue` it still leads to the node that was removed.
pub record IsQueue (h : Heap) (q : Queue) (ps : List Ptr) : Type 0 where
  pub spans : Spans (next_of h) q ps
  pub count : q.count ≡ length ps
  pub within : q.count ≤ q.limit

-- the links of a ring into which `node` was put behind `tail`
abbrev pub linked : (Ptr → Option Ptr) → (node first tail : Ptr) → Ptr → Option Ptr
linked f node first tail a = if a == tail then some node else if a == node then some first else f a

pub link_in_lem :
    (node first tail : Ptr) (s : LogState) (x y z : Ptr)
    → next_of s.heap node ≡ some x
    → next_of s.heap first ≡ some y
    → next_of s.heap tail ≡ some z
    → Returns
        (link_in node first tail s)
        (λ _. Relinked s (linked (next_of s.heap) node first tail))
unfolding link_in
link_in_lem node first tail s x y z hn hf ht = bind (set_next_lem node s hn first) λ _ s₁ w₁.
    bind (set_prev_lem node {x = first} s₁ (ground (arith, w₁.next node)) tail) λ _ s₂ w₂.
      bind
        (set_next_lem tail {x = if tail == node then first else z} s₂
          (ground (arith, w₁.next tail, w₂.next tail)) node)
        λ _ s₃ w₃.
          mono
            (set_prev_lem first
              {x = if first == tail then node else if first == node then first else y} s₃
              (ground (arith, w₁.next first, w₂.next first, w₃.next first)) node)
            λ _ s₄ w₄. record {
              same_svr = cc (w₁.same_svr, w₂.same_svr, w₃.same_svr, w₄.same_svr);
              next = λ a. ground (arith, w₁.next a, w₂.next a, w₃.next a, w₄.next a);
              val = λ a. ground (arith, w₁.val a, w₂.val a, w₃.val a, w₄.val a);
            }

-- from `s` to `s'` the queue `q` became `q'`, which holds `ps`; links changed only in `touched`
pub record Became (s : LogState) (q : Queue) (touched ps : List Ptr) (q' : Queue) (s' : LogState)
    : Type 0 where
  pub queue : IsQueue s'.heap q' ps
  pub limit : q'.limit ≡ q.limit
  pub same_svr : s'.svr ≡ s.svr
  pub next : (a : Ptr) → has a touched ≡ false → next_of s'.heap a ≡ next_of s.heap a
  pub val : (a : Ptr) → val_of s'.heap a ≡ val_of s.heap a

module _ (q : Queue) (node : Ptr) {x : Ptr} (s : LogState) (new : next_of s.heap node ≡ some x)
    (room : q.count < q.limit) where
  -- into the empty queue the node is linked to itself
  pub enqueue_to-nil :
      IsQueue s.heap q []
      → Returns
          (enqueue_to q node s)
          (λ (r, q') s'. (r ≡ pos 0) × Became s q (node ∷ []) (node ∷ []) q' s')
  unfolding enqueue_to
  enqueue_to-nil is =
      let (_, s', run, w) = link_in_lem node node node s x x x new new new in
      let full : leb q.limit q.count ≡ false = ground arith in
      let empty : (q.count == 0) ≡ true = ground (arith, is.count) in
      (
        (pos 0, record q { head = node; tail = node; count = q.count + 1 }),
        s',
        rw (full, empty, run),
        (
          refl,
          record {
            queue = record {
              spans = (refl, (refl, (node, ground (arith, w.next node))));
              count = omega (arith, is.count);
              within = omega arith;
            };
            limit = refl;
            same_svr = w.same_svr;
            next = λ a h. ground (arith, w.next a);
            val = w.val;
          },
        ),
      )

  pub enqueue_to-cons :
      (p : Ptr) (ps : List Ptr)
      → IsQueue s.heap q (p ∷ ps)
      → has node (p ∷ ps) ≡ false
      → Returns
          (enqueue_to q node s)
          (λ (r, q') s'. (r ≡ pos 0) × Became s q (node ∷ p ∷ ps) ((p ∷ ps) ++ node ∷ []) q' s')
  unfolding enqueue_to
  enqueue_to-cons p ps is out =
      let chain = is.spans.1 in
      let (held, (z, last)) = Chain-last (next_of s.heap) p ps q.tail chain in
      let (y, first) = Chain-first (next_of s.heap) p ps q.tail chain in
      let (_, s', run, w) = link_in_lem node q.head q.tail s x y z new (rw is.spans.0 first) last in
      let full : leb q.limit q.count ≡ false = ground arith in
      let some_left : (q.count == 0) ≡ false = ground (arith, is.count) in
      (
        (pos 0, record q { tail = node; count = q.count + 1 }),
        s',
        rw (full, some_left, run),
        (
          refl,
          record {
            queue = record {
              spans = (
                is.spans.0,
                Chain-snoc (next_of s.heap) (next_of s'.heap) p ps q.tail node q.head chain out
                    w.next,
              );
              count = omega (arith, is.count, length-append ps (node ∷ []));
              within = omega arith;
            };
            limit = refl;
            same_svr = w.same_svr;
            next = λ a h. ground (arith, w.next a, held);
            val = w.val;
          },
        ),
      )
