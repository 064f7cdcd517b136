-- ===== src/Log/Full.antt =====
-- A fresh node in the log, and the code that `enqueue` returns for it.
use to_do_list_public.Common.{
  ◌≡◌, ◌≢◌, refl, some, Bool, true, false, [], ◌∷◌, arith, if◌then◌else◌, leb, pos, minus_one,
  length,
}
use to_do_list_public.Log.Store.{
  Ptr, null, LogNode, Heap, LogState, Allocated, put_node, node_at, store_node,
}
use to_do_list_public.Log.Links.{next_of, val_of}
use to_do_list_public.Log.Chain.{has}
use to_do_list_public.Log.Bounded.{put}
use to_do_list_public.Log.Refines.{Contents, Models, abs_enqueue, Holds-frame}
use to_do_list_public.Log.{LogMsgType, normal, control, invalid_log}

-- whether the queue of a type has no room; there is none of the invalid type
abbrev pub is_full : Contents → LogMsgType → Bool
is_full c invalid_log = true
is_full c normal = leb c.nrl.limit (length c.nrl.items)
is_full c control = leb c.ctrl.limit (length c.ctrl.items)

pub abs_enqueue_code :
    (c : Contents) (node : Ptr) (t : LogMsgType)
    → (abs_enqueue c node t).0 ≡ (if is_full c t then minus_one else pos 0)
unfolding abs_enqueue put
abs_enqueue_code c node invalid_log = refl
abs_enqueue_code c node normal = ground arith
abs_enqueue_code c node control = ground arith

module _ (h : Heap) (p : Ptr) (n : LogNode) where
  next-put : (a : Ptr) → has a (p ∷ []) ≡ false → next_of (put_node h p n) a ≡ next_of h a
  unfolding next_of node_at put_node
  next-put a other = ground arith

  next-new : p ≢ null → next_of (put_node h p n) p ≡ some n.next
  unfolding next_of node_at put_node
  next-new real = ground arith

  val-new : p ≢ null → val_of (put_node h p n) p ≡ some n.val
  unfolding val_of node_at put_node
  val-new real = ground arith

module _ (a : Allocated) (s : LogState) where
  pub store_node-next : a.node ≢ null → next_of (store_node a s).heap a.node ≡ some a.memory.next
  unfolding store_node
  store_node-next = next-new s.heap a.node (record a.memory { val = a.client })

  pub store_node-val : a.node ≢ null → val_of (store_node a s).heap a.node ≡ some a.client
  unfolding store_node
  store_node-val = val-new s.heap a.node (record a.memory { val = a.client })

  -- A node that is in neither queue changes nothing of them.
  pub store_node-Models :
      (c : Contents)
      → Models s c
      → has a.node c.nrl.items ≡ false
      → has a.node c.ctrl.items ≡ false
      → Models (store_node a s) c
  unfolding store_node
  store_node-Models c m out_nrl out_ctrl =
      let filled = record a.memory { val = a.client } in
      let h = put_node s.heap a.node filled in
      record {
        nrl =
            Holds-frame s.heap h s.svr.nrl (a.node ∷ []) c.nrl m.nrl (next-put s.heap a.node filled)
              (λ x i. ground (arith, out_nrl, i));
        ctrl =
            Holds-frame s.heap h s.svr.ctrl (a.node ∷ []) c.ctrl m.ctrl
              (next-put s.heap a.node filled) (λ x i. ground (arith, out_ctrl, i));
        apart = m.apart;
        free = m.free;
      }
