-- ===== src/Server/Tests.antt =====
-- Runs of the storage, the server, the worker and the factory.
use to_do_list_public.Common.{
  true, ◌≡◌, refl, false, pos, some, none, [], ◌∷◌, ◌==◌, if◌then◌else◌, arith,
}
use to_do_list_public.State.{
  passive_preprimary, unknown_state, passive_rep, passive_backup, passive_primary, Server, done,
}
use to_do_list_public.Db.{
  task_not_done, DataPoint, HashTable, overflow, hash_table_init, hash_table_get_dat_size,
  hash_table_get_all, visit,
}
use to_do_list_public.Storage.{
  ClientCtx, MsgType, msg_get_all, msg_add, msg_remove, msg_chk_pt, Outside, handle_storage,
}
use to_do_list_public.Storage.Laws.{get_all-overflow}
use to_do_list_public.Worker.{Pool, Handler, prune}
use to_do_list_public.Worker.Laws.{Pruned, prune-Pruned}

abbrev point : DataPoint
point = record {
  key = 1;
  raw_data = λ i. if i == 0 then 97 else 0;
  data_len = 1;
  task_status = task_not_done;
}

abbrev one_task : HashTable
one_task = record { «data» = λ i. if i == 1 then point ∷ [] else []; data_size = 1 }

abbrev request : MsgType → ClientCtx
request m = record {
  fd = pos 4;
  client_id = pos 1;
  req = record {
    msg_type = m;
    task = λ i. if i == 0 then 97 else 0;
    task_status = task_not_done;
    task_len = 1;
    hash_key = 1;
    req_no = 7;
  };
  is_backlog = false;
}

abbrev outside : Outside
outside = record { sha1 = λ task len. 1; malloc = some point; import_db = hash_table_init }

abbrev server : Server
server = record {
  rep_mode = passive_rep;
  state = passive_primary;
  prev_state = unknown_state;
  chkpt = record {
    signal_exit = false;
    is_running = false;
    freq = pos 10;
    chk_point_num = 0;
    thread = none;
  };
}

abbrev backup : Server
backup = record server { state = passive_backup }

abbrev old_request : ClientCtx
old_request = record (request msg_add) { is_backlog = true }

abbrev pool : Server → Pool
pool s = record {
  server = s;
  is_prune = false;
  nrl = request msg_add ∷ request msg_chk_pt ∷ request msg_remove ∷ [];
  ctrl = [];
  handled = [];
  freed = [];
}

abbrev keep : Handler
keep ctx s = done s

get_all-overflow_example : handle_storage outside 10 (request msg_get_all) one_task ≡ overflow
unfolding hash_table_get_dat_size hash_table_get_all visit
get_all-overflow_example =
    get_all-overflow outside 10 (request msg_get_all) one_task 1 refl refl (omega arith)
      (ground arith)

prune-Pruned_example :
    (p' : Pool) × ((prune keep (pool backup).nrl (pool backup) ≡ done p')
      × Pruned (pool backup).nrl (pool backup) p')
prune-Pruned_example = prune-Pruned keep (λ c s. (s, refl)) (pool backup).nrl (pool backup)

-- a pre-primary with one request of its backlog and two that arrived after
abbrev taking : Pool
taking = record (pool (record server { state = passive_preprimary })) {
  nrl = old_request ∷ request msg_remove ∷ request msg_add ∷ [];
}
