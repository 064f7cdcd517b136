-- ===== src/Log/Bounded.antt =====
-- Bounded first-in-first-out queues of nodes, and the rings that hold them: what `enqueue_to` and
-- `dequeue_from` do in terms of these.
use to_do_list_public.Common.{
  ℕ, ◌-◌, ◌<◌, ◌≡◌, refl, ◌∙◌, sym, some, true, false, List, [], ◌∷◌, ◌++◌, arith, ◌==◌,
  if◌then◌else◌, ltb, leb, ℤ, pos, minus_one, Bool-cases, inl, inr, length, ◌⊎◌,
}
use to_do_list_public.Log.Store.{Ptr, null, Queue, Heap, LogState}
use to_do_list_public.Log.Links.{next_of, val_of, Returns, mono, load_lem, set_prev_lem}
use to_do_list_public.Log.Chain.{has, Chain-frame, Chain-first, has-append}
use to_do_list_public.Log.Ring.{IsQueue, Became, enqueue_to-nil, enqueue_to-cons}
use to_do_list_public.Log.{enqueue_to, dequeue_from}

-- the bounded queue that a ring stands for
pub record Bounded : Type 0 where
  pub items : List Ptr
  pub limit : ℕ

unfoldable pub put : Bounded → Ptr → ℤ × Bounded
put b node =
    if leb b.limit (length b.items)
    then (minus_one, b)
    else (pos 0, record b { items = b.items ++ node ∷ [] })

abbrev pub take_items : List Ptr → ℕ → Ptr × Bounded
take_items [] n = (null, record { items = []; limit = n })
take_items (p ∷ ps) n = (p, record { items = ps; limit = n })

pub take : Bounded → Ptr × Bounded
take b = take_items b.items b.limit

abbrev view : List Ptr → Queue → Bounded
view ps q = record { items = ps; limit = q.limit }

Became-refl :
    (s : LogState) (q : Queue) (touched ps : List Ptr)
    → IsQueue s.heap q ps
    → Became s q touched ps q s
Became-refl s q touched ps is = record {
  queue = is;
  limit = refl;
  same_svr = refl;
  next = λ a h. refl;
  val = λ a. refl;
}

enqueue_to-put :
    (q : Queue) (node : Ptr) {x : Ptr} (s : LogState) (ps : List Ptr)
    → IsQueue s.heap q ps
    → next_of s.heap node ≡ some x
    → has node ps ≡ false
    → Returns (enqueue_to q node s) (λ (r, q') s'.
      (r ≡ (put (view ps q) node).0) × Became s q (node ∷ ps) (put (view ps q) node).1.items q' s')
unfolding put
enqueue_to-put q node s ps is new out = elim (Bool-cases (leb q.limit (length ps))) [
  | inl full ↦
      let full' : leb q.limit q.count ≡ true = rw is.count full in
      (
        (minus_one, q),
        s,
        unfold enqueue_to in rw full',
        rw full (refl, Became-refl s q (node ∷ ps) ps is),
      )
  | inr room ↦
      let room' : q.count < q.limit = ground (arith, is.count) in rw room (accepted ps is out room')
]
  where
    accepted :
        (ps : List Ptr)
        → IsQueue s.heap q ps
        → has node ps ≡ false
        → q.count < q.limit
        → Returns
            (enqueue_to q node s)
            (λ (r, q') s'. (r ≡ pos 0) × Became s q (node ∷ ps) (ps ++ node ∷ []) q' s')
    accepted [] is out room = enqueue_to-nil q node s new room is
    accepted (p ∷ ps) is out room = enqueue_to-cons q node s new room p ps is out

dequeue_from-take :
    (q : Queue) (s : LogState) (ps : List Ptr)
    → IsQueue s.heap q ps
    → Returns
        (dequeue_from q s)
        (λ (r, q') s'. (r ≡ (take (view ps q)).0) × Became s q [] (take (view ps q)).1.items q' s')
unfolding dequeue_from take
dequeue_from-take q s [] is =
    let none_left : ltb 0 q.count ≡ false = ground (arith, is.count) in
    ((null, q), s, rw none_left, (refl, Became-refl s q [] [] is))
dequeue_from-take q s (p ∷ []) is =
    let left : ltb 0 q.count ≡ true = ground (arith, is.count) in
    let single : (q.count == 1) ≡ true = ground (arith, is.count) in
    (
      (q.head, record q { head = null; tail = null; count = q.count - 1 }),
      s,
      rw (left, single),
      (
        is.spans.0,
        record {
          queue = record {
            spans = (refl, refl);
            count = omega (arith, is.count);
            within = omega (arith, is.within);
          };
          limit = refl;
          same_svr = refl;
          next = λ a h. refl;
          val = λ a. refl;
        },
      ),
    )
dequeue_from-take q s (p ∷ p' ∷ ps) is =
    let left : ltb 0 q.count ≡ true = ground (arith, is.count) in
    let several : (q.count == 1) ≡ false = ground (arith, is.count) in
    let head_next : next_of s.heap q.head ≡ some p' = rw is.spans.0 is.spans.1.0 in
    let (n, got, e) = load_lem q.head s head_next in
    let (y, second) = Chain-first (next_of s.heap) p' ps q.tail is.spans.1.2 in
    let (_, s', run, w) = set_prev_lem p' s second q.tail in
    let (n', got', e') = load_lem q.head s' (w.next q.head ∙ head_next) in
    (
      (q.head, record q { head = n'.next; count = q.count - 1 }),
      s',
      rw (left, several, got, e, run, got'),
      (
        is.spans.0,
        record {
          queue = record {
            spans = (
              e',
              Chain-frame (next_of s.heap) (next_of s'.heap) p' ps q.tail is.spans.1.2
                  (λ a h. w.next a),
            );
            count = omega (arith, is.count);
            within = omega (arith, is.within);
          };
          limit = refl;
          same_svr = w.same_svr;
          next = λ a h. w.next a;
          val = w.val;
        },
      ),
    )

-- the queue `q` holds what `b` says, with its limit
pub record Holds (h : Heap) (q : Queue) (b : Bounded) : Type 0 where
  pub ring : IsQueue h q b.items
  pub limit : q.limit ≡ b.limit

-- from `s` to `s'` only links in `touched` changed
pub record Frame (touched : List Ptr) (s s' : LogState) : Type 0 where
  pub same_svr : s'.svr ≡ s.svr
  pub next : (a : Ptr) → has a touched ≡ false → next_of s'.heap a ≡ next_of s.heap a
  pub val : (a : Ptr) → val_of s'.heap a ≡ val_of s.heap a

put-limit : (b : Bounded) (node : Ptr) → (put b node).1.limit ≡ b.limit
unfolding put
put-limit b node = ground arith

take-limit : (b : Bounded) → (take b).1.limit ≡ b.limit
unfolding take
take-limit b = go b.items
  where
    go : (ps : List Ptr) → (take_items ps b.limit).1.limit ≡ b.limit
    go [] = refl
    go (p ∷ ps) = refl

pub has-put :
    (b : Bounded) (node a : Ptr)
    → has a (put b node).1.items ≡ true
    → (a ≡ node) ⊎ (has a b.items ≡ true)
unfolding put
has-put b node a h = ground (arith, has-append a b.items (node ∷ []))

pub has-take : (b : Bounded) (a : Ptr) → has a (take b).1.items ≡ true → has a b.items ≡ true
unfolding take
has-take b a = go b.items
  where
    go : (ps : List Ptr) → has a (take_items ps b.limit).1.items ≡ true → has a ps ≡ true
    go [] h = h
    go (p ∷ ps) h = ground arith

module _ (q : Queue) (s : LogState) (b : Bounded) (holds : Holds s.heap q b) where
  view-eq : view b.items q ≡ b
  view-eq = λ i. record { items = b.items; limit = holds.limit i }

  pub enqueue_to-Holds :
      (node : Ptr) {x : Ptr}
      → next_of s.heap node ≡ some x
      → has node b.items ≡ false
      → Returns (enqueue_to q node s) (λ (r, q') s'.
        (r ≡ (put b node).0) × Holds s'.heap q' (put b node).1 × Frame (node ∷ b.items) s s')
  enqueue_to-Holds node new out =
      mono (enqueue_to-put q node s b.items holds.ring new out) λ (r, q') s' (e, w). (
        rw view-eq at e,
        record {
          ring = rw view-eq at (w.queue);
          limit = w.limit ∙ holds.limit ∙ sym (put-limit b node);
        },
        record { same_svr = w.same_svr; next = w.next; val = w.val },
      )

  pub dequeue_from-Holds :
      Returns
        (dequeue_from q s)
        (λ (r, q') s'. (r ≡ (take b).0) × Holds s'.heap q' (take b).1 × Frame [] s s')
  dequeue_from-Holds = mono (dequeue_from-take q s b.items holds.ring) λ (r, q') s' (e, w). (
    rw view-eq at e,
    record { ring = rw view-eq at (w.queue); limit = w.limit ∙ holds.limit ∙ sym (take-limit b) },
    record { same_svr = w.same_svr; next = w.next; val = w.val },
  )
