-- ===== src/Server/Start.antt =====
-- The log of a server at its start (`main` of src/server.c), and a node that `malloc` returns.
use to_do_list_public.Common.{◌≡◌, refl, sym, subst, none, [], arith}
use to_do_list_public.Log.{init_log_queue}
use to_do_list_public.Log.Store.{Heap, LogState, Allocated}
use to_do_list_public.Log.Refines.{Contents, Models, init_log_queue-Models}
use to_do_list_public.Server.{World}
use to_do_list_public.Server.Enqueue.{IsReady}

abbrev no_nodes : Heap
no_nodes a = none

abbrev pub start_log : LogState
start_log = record { heap = no_nodes; svr = init_log_queue 50 50 }

abbrev pub no_requests : Contents
no_requests = record {
  nrl = record { items = []; limit = 50 };
  ctrl = record { items = []; limit = 50 };
}

abbrev pub new_node : Allocated
new_node = record { node = 9; memory = record { val = 0; next = 0; prev = 0 }; client = 70 }

pub start-IsReady : (w : World) → w.log ≡ start_log → w.new ≡ new_node → IsReady w no_requests
start-IsReady w e n = record {
  models = subst (λ s. Models s no_requests) (sym e) (init_log_queue-Models no_nodes 50 50);
  real = ground (arith, n);
  out_nrl = refl;
  out_ctrl = refl;
}
