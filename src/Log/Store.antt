-- ===== src/Log/Store.antt =====
-- Nodes at addresses, the log structure, and commands that read and write them. A command can
-- fault (a read or write through a pointer to no node) or block (on a mutex that is held).
use to_do_list_public.Common.{ℕ, Bool, true, false, Option, none, some, ◌==◌, if◌then◌else◌}

abbrev pub Ptr : Type 0
Ptr = ℕ

abbrev pub null : Ptr
null = 0

-- `log_node_t`; `val` is the address of a client context
pub record LogNode : Type 0 where
  pub val : ℕ
  pub next : Ptr
  pub prev : Ptr

abbrev pub Heap : Type 0
Heap = Ptr → Option LogNode

-- one of the two queues of `server_log_t`
pub record Queue : Type 0 where
  pub head : Ptr
  pub tail : Ptr
  pub count : ℕ
  pub limit : ℕ

-- `server_log_t`; `q_mutex` says whether the mutex is held
pub record ServerLog : Type 0 where
  pub nrl : Queue
  pub ctrl : Queue
  pub q_mutex : Bool

pub record LogState : Type 0 where
  pub heap : Heap
  pub svr : ServerLog

pub data Run (A : Type 0) : Type 0 where
  ok : A → LogState → Run A
  fault : Run A
  blocked : Run A

abbrev pub Cmd : Type 0 → Type 0
Cmd A = LogState → Run A

abbrev pub pure : {A : Type 0} → A → Cmd A
pure = ok

module _ {A B : Type 0} where
  abbrev pub continue : Run A → (A → Cmd B) → Run B
  continue (ok a s) k = k a s
  continue fault k = fault
  continue blocked k = blocked

  infixl 5 ◌>>=◌ ◌>>◌
  abbrev pub ◌>>=◌ : Cmd A → (A → Cmd B) → Cmd B
  ◌>>=◌ m k s = continue (m s) k

  abbrev pub ◌>>◌ : Cmd A → Cmd B → Cmd B
  ◌>>◌ m k s = continue (m s) (λ _. k)

abbrev pub get_svr : Cmd ServerLog
get_svr s = ok s.svr s

abbrev pub put_svr : ServerLog → Cmd (Unit {0})
put_svr v s = ok tt (record s { svr = v })

-- the node that a pointer may be followed to
unfoldable pub node_at : Heap → Ptr → Option LogNode
node_at h p = if p == null then none else h p

unfoldable pub put_node : Heap → Ptr → LogNode → Heap
put_node h p n a = if a == p then some n else h a

unfoldable pub load : Ptr → Cmd LogNode
unfolding node_at
load p s = elim (node_at s.heap p) [ none ↦ fault | some n ↦ ok n s ]

-- what `malloc` returns for a node, with the contents that the memory happens to have, and the address
-- of the client context that is stored in it
pub record Allocated : Type 0 where
  pub node : Ptr
  pub memory : LogNode
  pub client : ℕ

-- `node->val = client_ctx`
unfoldable pub store_node : Allocated → LogState → LogState
store_node a s = record s { heap = put_node s.heap a.node (record a.memory { val = a.client }) }

-- `p->next = q`
unfoldable pub set_next : Ptr → Ptr → Cmd (Unit {0})
unfolding load put_node
set_next p q = do
  n ← load p
  λ s. ok tt (record s { heap = put_node s.heap p (record n { next = q }) })

-- `p->prev = q`
unfoldable pub set_prev : Ptr → Ptr → Cmd (Unit {0})
unfolding load put_node
set_prev p q = do
  n ← load p
  λ s. ok tt (record s { heap = put_node s.heap p (record n { prev = q }) })

-- `pthread_mutex_lock` waits while the mutex is held; a second lock by its holder never returns
unfoldable pub take_lq_lock : Cmd (Unit {0})
take_lq_lock s =
    if s.svr.q_mutex then blocked else ok tt (record s { svr = record (s.svr) { q_mutex = true } })

unfoldable pub release_lq_lock : Cmd (Unit {0})
release_lq_lock s = ok tt (record s { svr = record (s.svr) { q_mutex = false } })
