-- ===== src/Worker/Laws.antt =====
-- What a round of the worker thread for normal messages does with the queue.
use to_do_list_public.Common.{
  ◌≡◌, refl, sym, ◌∙◌, Bool, true, false, List, [], ◌∷◌, ◌++◌, if◌then◌else◌, Bool-cases, append-[],
  append_assoc, inl, inr,
}
use to_do_list_public.State.{Server, done}
use to_do_list_public.Storage.{ClientCtx, is_msg, msg_chk_pt}
use to_do_list_public.Worker.{Pool, Handler, handle, free_msg, prune}

-- the requests of a queue that carry a checkpoint, or do not
unfoldable pub select : Bool → List ClientCtx → List ClientCtx
select b [] = []
select b (ctx ∷ rest) =
    if is_msg ctx.req.msg_type msg_chk_pt
    then (if b then ctx ∷ select b rest else select b rest)
    else (if b then select b rest else ctx ∷ select b rest)

-- What pruning the requests `ps` makes of a pool.
pub record Pruned (ps : List ClientCtx) (p p' : Pool) : Type 0 where
  pub emptied : p'.nrl ≡ []
  pub handled : p'.handled ≡ p.handled ++ select true ps
  pub freed : p'.freed ≡ p.freed ++ select false ps
  pub control : p'.ctrl ≡ p.ctrl

-- one request more at the head of the queue
Pruned-checkpoint :
    (ctx : ClientCtx) (rest : List ClientCtx) (p p' : Pool) (s : Server)
    → is_msg ctx.req.msg_type msg_chk_pt ≡ true
    → Pruned rest (record p { server = s; is_prune = false; handled = p.handled ++ (ctx ∷ []) }) p'
    → Pruned (ctx ∷ rest) p p'
unfolding select
Pruned-checkpoint ctx rest p p' s e h = record {
  emptied = h.emptied;
  handled = rw e (h.handled ∙ append_assoc p.handled (ctx ∷ []) (select true rest));
  freed = rw e h.freed;
  control = h.control;
}

Pruned-other :
    (ctx : ClientCtx) (rest : List ClientCtx) (p p' : Pool)
    → is_msg ctx.req.msg_type msg_chk_pt ≡ false
    → Pruned rest (free_msg ctx p) p'
    → Pruned (ctx ∷ rest) p p'
unfolding select free_msg
Pruned-other ctx rest p p' e h = record {
  emptied = h.emptied;
  handled = rw e h.handled;
  freed = rw e (h.freed ∙ append_assoc p.freed (ctx ∷ []) (select false rest));
  control = h.control;
}

prune-checkpoint :
    (hdl : Handler) (ctx : ClientCtx) (rest : List ClientCtx) (p : Pool) (s : Server)
    → is_msg ctx.req.msg_type msg_chk_pt ≡ true
    → hdl ctx p.server ≡ done s
    → prune hdl (ctx ∷ rest) p
      ≡ prune hdl rest
          (record p { server = s; is_prune = false; handled = p.handled ++ (ctx ∷ []) })
unfolding prune handle
prune-checkpoint hdl ctx rest p s e ran = rw (prune, e) (rw (handle, ran) refl)

prune-other :
    (hdl : Handler) (ctx : ClientCtx) (rest : List ClientCtx) (p : Pool)
    → is_msg ctx.req.msg_type msg_chk_pt ≡ false
    → prune hdl (ctx ∷ rest) p ≡ prune hdl rest (free_msg ctx p)
unfolding prune
prune-other hdl ctx rest p e = rw (prune, e) refl

module _ (hdl : Handler)
    (runs : (c : ClientCtx) (s : Server) → (s' : Server) × (hdl c s ≡ done s')) where
  -- With a handler that always returns, whatever `prune` finds in the queue leaves it: each
  -- checkpoint goes to the handler, in order, and every other request is freed unhandled, in
  -- order, also one that stands behind the checkpoint. The control queue stays.
  pub prune-Pruned :
      (ps : List ClientCtx) (p : Pool) → (p' : Pool) × ((prune hdl ps p ≡ done p') × Pruned ps p p')
  unfolding prune
  prune-Pruned [] p = (
    record p { nrl = [] },
    (
      refl,
      record {
        emptied = refl;
        handled = unfold select in sym (append-[] p.handled);
        freed = unfold select in sym (append-[] p.freed);
        control = refl;
      },
    ),
  )
  prune-Pruned (ctx ∷ rest) p = elim (Bool-cases (is_msg ctx.req.msg_type msg_chk_pt)) [
    | inl e ↦
        let (s, ran) = runs ctx p.server in
        let (p', (run, h)) =
          prune-Pruned rest
            (record p { server = s; is_prune = false; handled = p.handled ++ (ctx ∷ []) }) in
        (p', (prune-checkpoint hdl ctx rest p s e ran ∙ run, Pruned-checkpoint ctx rest p p' s e h))
    | inr e ↦
        let (p', (run, h)) = prune-Pruned rest (free_msg ctx p) in
        (p', (prune-other hdl ctx rest p e ∙ run, Pruned-other ctx rest p p' e h))
  ]
