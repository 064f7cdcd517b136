-- ===== src/Manager/Down.antt =====
-- What the branches of `handle_state` on a replica that went down may change.
use to_do_list_public.Common.{
  ℕ, ◌+◌, ◌%◌, ◌<◌, ◌≡◌, refl, true, pos, int_eq, arith, Bool-cases, inl, inr,
}
use to_do_list_public.Manager.Data.{max_replicas, Manager, set_primary}
use to_do_list_public.Manager.Local.{after, elect_lem, restart_lem}
use to_do_list_public.Manager.{failed, move_primary, passive_down, active_down, needs_one}
use to_do_list_public.Manager.Branches.{is_primary_id, is_unset, Owed, Handled, Returns}

module _ (i : ℕ) (m : Manager) (lt : i < max_replicas)
    (valid : is_primary_id m.primary_replica_id ≡ true) (owed : Owed m) where
  pub passive_down_lem : Returns (passive_down i m) (λ _ m'. Handled i m m')
  unfolding passive_down move_primary
  passive_down_lem =
      let (r, a, s, node, run, others) = restart_lem i m in
      let lt' : (i + 1) % max_replicas < max_replicas = omega arith in
      elim (Bool-cases (is_unset m.primary_replica_id)) [
        | inl unset ↦ (
          pos 0,
          set_primary (pos i) (record (after m a s) { node = node }),
          rw (unset, run),
          record {
            mode = refl;
            lock = refl;
            num_replicas = refl;
            server_status = refl;
            num_servers = refl;
            node = others;
            primary = ground arith;
            owed = λ j h. refl;
          },
        )
        | inr set ↦ elim (Bool-cases (int_eq (pos i) m.primary_replica_id)) [
          | inl own ↦
              let (r', a', s', p, run', which) =
                elect_lem ((i + 1) % max_replicas)
                  (set_primary (pos ((i + 1) % max_replicas))
                    (record (after m a s) { node = node }))
                  lt' in
              (
                failed r' (pos 0),
                needs_one i (set_primary p (record (after m a' s') { node = node })),
                rw (set, own, run, run'),
                record {
                  mode = refl;
                  lock = refl;
                  num_replicas = refl;
                  server_status = refl;
                  num_servers = refl;
                  node = others;
                  primary = ground arith;
                  owed = λ j h. ground arith;
                },
              )
          | inr backup ↦ (
            pos 0,
            needs_one i (record (after m a s) { node = node }),
            rw (set, backup, run),
            record {
              mode = refl;
              lock = refl;
              num_replicas = refl;
              server_status = refl;
              num_servers = refl;
              node = others;
              primary = valid;
              owed = λ j h. set;
            },
          )
        ]
      ]

  pub active_down_lem : Returns (active_down i m) (λ _ m'. Handled i m m')
  unfolding active_down move_primary
  active_down_lem =
      let (r, a, s, node, run, others) = restart_lem i m in
      let lt' : (i + 1) % max_replicas < max_replicas = omega arith in
      elim (Bool-cases (int_eq (pos i) m.primary_replica_id)) [
        | inl own ↦
            let (r', a', s', p, run', which) =
              elect_lem ((i + 1) % max_replicas)
                (set_primary (pos ((i + 1) % max_replicas)) (record (after m a s) { node = node }))
                lt' in
            (
              failed r' (pos 0),
              set_primary p (record (after m a' s') { node = node }),
              rw (run, own, run'),
              record {
                mode = refl;
                lock = refl;
                num_replicas = refl;
                server_status = refl;
                num_servers = refl;
                node = others;
                primary = ground arith;
                owed = λ j h. ground arith;
              },
            )
        | inr backup ↦ (
          pos 0,
          record (after m a s) { node = node },
          rw (run, backup),
          record {
            mode = refl;
            lock = refl;
            num_replicas = refl;
            server_status = refl;
            num_servers = refl;
            node = others;
            primary = valid;
            owed = owed;
          },
        )
      ]
