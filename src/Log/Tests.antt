-- ===== src/Log/Tests.antt =====
-- Runs of the log on a queue of one node.
use to_do_list_public.Common.{refl, none, some, [], ◌∷◌, ◌==◌, if◌then◌else◌, arith, false}
use to_do_list_public.Log.Store.{Heap, LogState, node_at}
use to_do_list_public.Log.Links.{Returns, next_of}
use to_do_list_public.Log.{normal, enqueue, dequeue}
use to_do_list_public.Log.Refines.{
  Contents, Models, Enqueued, Dequeued, enqueue_refines, dequeue_refines,
}

-- the nodes 5, in the queue of normal messages, and 6, in none
abbrev two_nodes : Heap
two_nodes a =
    if a == 5
    then some (record { val = 50; next = 5; prev = 5 })
    else (if a == 6 then some (record { val = 60; next = 0; prev = 0 }) else none)

abbrev one_queued : LogState
one_queued = record {
  heap = two_nodes;
  svr = record {
    nrl = record { head = 5; tail = 5; count = 1; limit = 2 };
    ctrl = record { head = 0; tail = 0; count = 0; limit = 1 };
    q_mutex = false;
  };
}

abbrev one_item : Contents
one_item = record {
  nrl = record { items = 5 ∷ []; limit = 2 };
  ctrl = record { items = []; limit = 1 };
}

one_queued-Models : Models one_queued one_item
unfolding next_of node_at
one_queued-Models = record {
  nrl = record {
    ring = record { spans = (refl, (refl, (5, refl))); count = refl; within = omega arith };
    limit = refl;
  };
  ctrl = record {
    ring = record { spans = (refl, refl); count = refl; within = omega arith };
    limit = refl;
  };
  apart = λ a i. refl;
  free = refl;
}

enqueue_refines_example :
    Returns (enqueue 6 normal one_queued) (Enqueued one_queued one_item 6 normal)
unfolding next_of node_at
enqueue_refines_example =
    enqueue_refines one_queued one_item one_queued-Models 6 refl refl refl normal

dequeue_refines_example : Returns (dequeue normal one_queued) (Dequeued one_queued one_item normal)
dequeue_refines_example = dequeue_refines one_queued one_item one_queued-Models normal
