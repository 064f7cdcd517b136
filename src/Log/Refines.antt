-- ===== src/Log/Refines.antt =====
-- The log as two bounded first-in-first-out queues of nodes: each call on the heap, the mutex
-- included, returns what the abstract call returns and leaves the abstract contents behind.
use to_do_list_public.Common.{
  ℕ, ◌≡◌, ◌≢◌, refl, some, true, false, List, [], ◌∷◌, arith, ℤ, minus_one, length, Bool-cases, inl,
  inr,
}
use to_do_list_public.Log.Store.{
  Ptr, null, Queue, LogState, Heap, take_lq_lock, release_lq_lock, ok,
}
use to_do_list_public.Log.Links.{next_of, val_of, Returns, bind}
use to_do_list_public.Log.Chain.{has, Spans-frame}
use to_do_list_public.Log.Bounded.{
  Bounded, Holds, put, take, has-put, has-take, enqueue_to-Holds, dequeue_from-Holds,
}
use to_do_list_public.Log.{
  LogMsgType, normal, control, invalid_log, init_log_queue, enqueue, dequeue, get_count,
}

pub record Contents : Type 0 where
  pub nrl : Bounded
  pub ctrl : Bounded

unfoldable pub abs_enqueue : Contents → Ptr → LogMsgType → ℤ × Contents
abs_enqueue c node invalid_log = (minus_one, c)
abs_enqueue c node normal = let (r, q) = put c.nrl node in (r, record c { nrl = q })
abs_enqueue c node control = let (r, q) = put c.ctrl node in (r, record c { ctrl = q })

pub abs_dequeue : Contents → LogMsgType → Ptr × Contents
abs_dequeue c invalid_log = (null, c)
abs_dequeue c normal = let (r, q) = take c.nrl in (r, record c { nrl = q })
abs_dequeue c control = let (r, q) = take c.ctrl in (r, record c { ctrl = q })

abbrev pub abs_items : Contents → LogMsgType → List Ptr
abs_items c invalid_log = []
abs_items c normal = c.nrl.items
abs_items c control = c.ctrl.items

abbrev pub Apart : List Ptr → List Ptr → Type 0
Apart ps qs = (a : Ptr) → has a ps ≡ true → has a qs ≡ false

-- the heap and the structure hold the contents, no node is in both queues, the mutex is free
pub record Models (s : LogState) (c : Contents) : Type 0 where
  pub nrl : Holds s.heap s.svr.nrl c.nrl
  pub ctrl : Holds s.heap s.svr.ctrl c.ctrl
  pub apart : Apart c.nrl.items c.ctrl.items
  pub free : s.svr.q_mutex ≡ false

-- a queue whose nodes are not touched is still there
pub Holds-frame :
    (h h' : Heap) (q : Queue) (touched : List Ptr) (b : Bounded)
    → Holds h q b
    → ((a : Ptr) → has a touched ≡ false → next_of h' a ≡ next_of h a)
    → Apart b.items touched
    → Holds h' q b
Holds-frame h h' q touched b is same apart = record {
  ring = record {
    spans =
        Spans-frame (next_of h) (next_of h') q b.items is.ring.spans (λ a i. same a (apart a i));
    count = is.ring.count;
    within = is.ring.within;
  };
  limit = is.limit;
}

abbrev Kept : LogState → LogState → Type 0
Kept s s' = (a : Ptr) → val_of s'.heap a ≡ val_of s.heap a

abbrev pub Enqueued : LogState → Contents → Ptr → LogMsgType → ℤ → LogState → Type 0
Enqueued s c node t r s' =
    (r ≡ (abs_enqueue c node t).0) × Models s' (abs_enqueue c node t).1 × Kept s s'

abbrev pub Dequeued : LogState → Contents → LogMsgType → Ptr → LogState → Type 0
Dequeued s c t r s' = (r ≡ (abs_dequeue c t).0) × Models s' (abs_dequeue c t).1 × Kept s s'

-- the state inside the critical section
locked : LogState → LogState
locked s = record s { svr = record (s.svr) { q_mutex = true } }

take_lock : (s : LogState) → s.svr.q_mutex ≡ false → take_lq_lock s ≡ ok tt (locked s)
unfolding take_lq_lock locked
take_lock s free = rw free

module _ (s : LogState) (c : Contents) (m : Models s c) (node : Ptr) {x : Ptr}
    (new : next_of s.heap node ≡ some x) (out_nrl : has node c.nrl.items ≡ false)
    (out_ctrl : has node c.ctrl.items ≡ false) where
  enqueue_normal : Returns (enqueue node normal s) (Enqueued s c node normal)
  unfolding enqueue abs_enqueue release_lq_lock locked
  enqueue_normal = rw (take_lock s m.free) (
      bind (enqueue_to-Holds s.svr.nrl (locked s) c.nrl m.nrl node new out_nrl)
        λ (r, q) s' (e, h, w). (
          r,
          _,
          refl,
          (
            e,
            record {
              nrl = h;
              ctrl =
                  Holds-frame s.heap s'.heap s.svr.ctrl (node ∷ c.nrl.items) c.ctrl m.ctrl w.next
                    (λ a i. ground (arith, m.apart a));
              apart = λ a i. ground (arith, m.apart a, has-put c.nrl node a);
              free = refl;
            },
            w.val,
          ),
        ))

  enqueue_control : Returns (enqueue node control s) (Enqueued s c node control)
  unfolding enqueue abs_enqueue release_lq_lock locked
  enqueue_control = rw (take_lock s m.free) (
      bind (enqueue_to-Holds s.svr.ctrl (locked s) c.ctrl m.ctrl node new out_ctrl)
        λ (r, q) s' (e, h, w). (
          r,
          _,
          refl,
          (
            e,
            record {
              nrl =
                  Holds-frame s.heap s'.heap s.svr.nrl (node ∷ c.ctrl.items) c.nrl m.nrl w.next
                    (λ a i. ground (arith, m.apart a));
              ctrl = h;
              apart = λ a i. elim (Bool-cases (has a (put c.ctrl node).1.items)) [
                | inl back ↦ ground (arith, m.apart a, has-put c.ctrl node a)
                | inr front ↦ front
              ];
              free = refl;
            },
            w.val,
          ),
        ))

  -- Enqueueing an allocated node that is in neither queue refines the bounded queues: a request of
  -- the invalid type and a full queue give -1 and leave the contents, any other call gives 0 and
  -- adds the node behind the others of its own queue only. No value changes and the mutex is free
  -- again.
  pub enqueue_refines : (t : LogMsgType) → Returns (enqueue node t s) (Enqueued s c node t)
  unfolding enqueue abs_enqueue
  enqueue_refines invalid_log = (minus_one, s, refl, (refl, m, λ a. refl))
  enqueue_refines normal = enqueue_normal
  enqueue_refines control = enqueue_control

module _ (s : LogState) (c : Contents) (m : Models s c) where
  dequeue_normal : Returns (dequeue normal s) (Dequeued s c normal)
  unfolding dequeue abs_dequeue release_lq_lock locked
  dequeue_normal = rw (take_lock s m.free) (
      bind (dequeue_from-Holds s.svr.nrl (locked s) c.nrl m.nrl) λ (r, q) s' (e, h, w). (
        r,
        _,
        refl,
        (
          e,
          record {
            nrl = h;
            ctrl = Holds-frame s.heap s'.heap s.svr.ctrl [] c.ctrl m.ctrl w.next (λ a i. refl);
            apart = λ a i. m.apart a (has-take c.nrl a i);
            free = refl;
          },
          w.val,
        ),
      ))

  dequeue_control : Returns (dequeue control s) (Dequeued s c control)
  unfolding dequeue abs_dequeue release_lq_lock locked
  dequeue_control = rw (take_lock s m.free) (
      bind (dequeue_from-Holds s.svr.ctrl (locked s) c.ctrl m.ctrl) λ (r, q) s' (e, h, w). (
        r,
        _,
        refl,
        (
          e,
          record {
            nrl = Holds-frame s.heap s'.heap s.svr.nrl [] c.nrl m.nrl w.next (λ a i. refl);
            ctrl = h;
            apart = λ a i. elim (Bool-cases (has a (take c.ctrl).1.items)) [
              | inl back ↦ ground (arith, m.apart a, has-take c.ctrl a)
              | inr front ↦ front
            ];
            free = refl;
          },
          w.val,
        ),
      ))

  -- Dequeueing refines the bounded queues: NULL for the invalid type and for an empty queue, and
  -- otherwise the oldest node of the queue, which leaves it. No value changes and the mutex is
  -- free again.
  pub dequeue_refines : (t : LogMsgType) → Returns (dequeue t s) (Dequeued s c t)
  unfolding dequeue abs_dequeue
  dequeue_refines invalid_log = (null, s, refl, (refl, m, λ a. refl))
  dequeue_refines normal = dequeue_normal
  dequeue_refines control = dequeue_control

  -- `get_count` gives the number of nodes that the queue holds, and changes nothing.
  get_count_lem : (t : LogMsgType) → t ≢ invalid_log → get_count t s ≡ ok (length (abs_items c t)) s
  unfolding get_count
  get_count_lem invalid_log h = absurd (h refl)
  get_count_lem normal h = ground (arith, m.free, m.nrl.ring.count)
  get_count_lem control h = ground (arith, m.free, m.ctrl.ring.count)

-- The log is empty after its initialisation.
pub init_log_queue-Models :
    (h : Heap) (nrl_limit ctrl_limit : ℕ)
    → Models
        (record { heap = h; svr = init_log_queue nrl_limit ctrl_limit })
        (record {
          nrl = record { items = []; limit = nrl_limit };
          ctrl = record { items = []; limit = ctrl_limit };
        })
unfolding init_log_queue
init_log_queue-Models h n k = record {
  nrl = record {
    ring = record { spans = (refl, refl); count = refl; within = omega arith };
    limit = refl;
  };
  ctrl = record {
    ring = record { spans = (refl, refl); count = refl; within = omega arith };
    limit = refl;
  };
  apart = λ a i. refl;
  free = refl;
}
