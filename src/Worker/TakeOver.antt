-- ===== src/Worker/TakeOver.antt =====
-- How a pre-primary becomes the primary (src/worker.c, src/server.c): rounds of the worker for normal
-- messages over a backlog, with what `execute_msg` does to the run state as the handler.
use to_do_list_public.Common.{◌≡◌, if◌then◌else◌, Bool, true, false, not, List, [], ◌∷◌, ◌++◌}
use to_do_list_public.State.{Server, passive_rep, passive_preprimary, passive_primary}
use to_do_list_public.State.Thread.{start_ckhpt_thread}
use to_do_list_public.Storage.{ClientCtx}
use to_do_list_public.Worker.{Pool}

-- all requests are of the backlog
abbrev pub all_backlog : List ClientCtx → Bool
all_backlog [] = true
all_backlog (ctx ∷ rest) = if ctx.is_backlog then all_backlog rest else false

-- the first request, if there is one, is not of the backlog
abbrev pub starts_new : List ClientCtx → Bool
starts_new [] = true
starts_new (ctx ∷ rest) = not ctx.is_backlog

-- the pre-primary, and the primary that it becomes
pub record IsTaking (p : Pool) : Type 0 where
  pub mode : p.server.rep_mode ≡ passive_rep
  pub state : p.server.state ≡ passive_preprimary
  pub keeps : p.is_prune ≡ false

abbrev pub primary : Server → Server
primary s = record s { state = passive_primary; chkpt = start_ckhpt_thread s.chkpt }

-- The pool with the first requests of its queue handled, and what is left of the queue
abbrev pub after : Pool → (first rest : List ClientCtx) → Pool
after p first rest = record p { nrl = rest; handled = p.handled ++ first }
