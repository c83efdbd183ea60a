-- ===== src/Control/Service/Reachable.antt =====
-- control/control_service: every interleaving of the service's steps. What a request does with the
-- mutex held is one step, after a read of the database that may be older; a poll that waits is a
-- step that begins it and a step that ends it.
use netproject.Shared.{ℕ, ◌≡◌, [], ◌∷◌, some, arith, inl, inr}
use netproject.Shared.{
  nat_eq, Outcome, ok, err, panic, Bool-cases, Option-cases, subst, sym, suc, zero,
}
use netproject.Netip.{NetText}
use netproject.Control.Database.{
  Node, Table, Query, Exec, DbError, node_not_found, get_node, create_node,
}
use netproject.Keys.{is_zero}
use netproject.Control.Database.Lifecycle.{IsTable, create, apply_all, apply_all-IsTable}
use netproject.Control.Service.{
  Service, ServiceError, Env, LoginRequest, UpdateRequest, UpdateResponse, login_node,
  login_looked_up, update_looked_up, register_node, new_node, update, update_checked,
  update_signalled, update_timed_out, get_notify_chan,
}
use netproject.Control.Service.Addresses.{login_node-cases}
use netproject.Control.Service.Notify.{
  IsBounded, get_notify_chan-IsBounded, put-IsBounded, get-IsBounded,
}
use netproject.Shared.Map
use netproject.Shared.Map.{Map}

-- Ids are positive, distinct and given once, and no channel holds more than its capacity.
pub record IsSound (s : Service) : Type 0 where
  pub table : IsTable s.db
  pub bounded : IsBounded s.notify_chans

module _ ⦃text : NetText⦄ where
  pub data Step (s : Service) : Service → Type 0 where
    logs_in : (env : Env) (req : LoginRequest) → Step s (login_node env req s).0
    -- A login or an update that read the database before it got the mutex: `found` is what it
    -- read, in whatever earlier state.
    logs_in_late :
        (found : Outcome DbError Node) (env : Env) (req : LoginRequest)
        → Step s (login_looked_up found env req s).0
    polls_late :
        (found : Outcome DbError Node) (list : Query) (now : ℕ) (req : UpdateRequest)
        → Step s (update_looked_up found list now req s).0
    polls :
        (lookup list : Query) (now : ℕ) (req : UpdateRequest)
        → Step s (update lookup list now req s).0
    wakes :
        (list : Query) (id : ℕ) (s' : Service) (r : Outcome ServiceError UpdateResponse)
        → update_signalled list id s ≡ some (s', r)
        → Step s s'
    times_out : Step s (update_timed_out s).0

  pub data Reach (s : Service) : Service → Type 0 where
    here : Reach s s
    more : {t u : Service} → Reach s t → Step t u → Reach s u

  create_node-IsTable :
      (exec : Exec) (now : ℕ) (node : Node) (table : Table)
      → IsTable table
      → IsTable (create_node exec now node table).0
  unfolding apply_all
  create_node-IsTable exec now node table h = apply_all-IsTable (create exec now node ∷ []) table h

  register_node-IsSound :
      (env : Env) (req : LoginRequest) (s : Service)
      → IsSound s
      → IsSound (register_node env req s).0
  unfolding register_node
  register_node-IsSound env req s h = record {
    table =
        ground
          (arith, create_node-IsTable env.insert env.insert_time (new_node env req s) s.db h.table);
    bounded = ground arith;
  }

  login_looked_up-IsSound :
      (found : Outcome DbError Node) (env : Env) (req : LoginRequest) (s : Service)
      → IsSound s
      → IsSound (login_looked_up found env req s).0
  unfolding login_looked_up
  login_looked_up-IsSound (ok node) env req s h = h
  login_looked_up-IsSound (err node_not_found) env req s h = register_node-IsSound env req s h
  login_looked_up-IsSound (err _) env req s h = h
  login_looked_up-IsSound panic env req s h = h

  get_notify_chan-IsSound : (id : ℕ) (s : Service) → IsSound s → IsSound (get_notify_chan id s)
  unfolding get_notify_chan
  get_notify_chan-IsSound id s h = record {
    table = ground (arith, h.table);
    bounded = get_notify_chan-IsBounded id s h.bounded;
  }

  update_looked_up-IsSound :
      (r : Outcome DbError Node) (list : Query) (now : ℕ) (req : UpdateRequest) (s : Service)
      → IsSound s
      → IsSound (update_looked_up r list now req s).0
  unfolding update_looked_up update_checked
  update_looked_up-IsSound (ok node) list now req s h =
      ground (arith, h, get_notify_chan-IsSound node.id s h)
  update_looked_up-IsSound (err e) list now req s h = h
  update_looked_up-IsSound panic list now req s h = h

  update-IsSound :
      (lookup list : Query) (now : ℕ) (req : UpdateRequest) (s : Service)
      → IsSound s
      → IsSound (update lookup list now req s).0
  unfolding update
  update-IsSound lookup list now req s h = elim (Bool-cases (is_zero req.node_key)) [
    | inl e ↦ rw e h
    | inr e ↦ rw e (update_looked_up-IsSound (get_node lookup req.node_key s.db) list now req s h)
  ]

  update_signalled-inv :
      (list : Query) (id : ℕ) (s s' : Service) (r : Outcome ServiceError UpdateResponse)
      → update_signalled list id s ≡ some (s', r)
      → (q : ℕ) × (Map.get id s.notify_chans ≡ some (suc q))
        × (s' ≡ record s { notify_chans = Map.put id q s.notify_chans })
  unfolding update_signalled
  update_signalled-inv list id s s' r e = elim (Option-cases (Map.get id s.notify_chans)) [
    | inl g ↦ absurd (ground (arith, g, e))
    | inr (zero, g) ↦ absurd (ground (arith, g, e))
    | inr (suc q, g) ↦ (q, g, ground (arith, g, e))
  ]

  update_signalled-IsSound :
      (list : Query) (id : ℕ) (s s' : Service) (r : Outcome ServiceError UpdateResponse)
      → update_signalled list id s ≡ some (s', r)
      → IsSound s
      → IsSound s'
  update_signalled-IsSound list id s s' r e h =
      let (q, g, eq) = update_signalled-inv list id s s' r e in
      subst IsSound (sym eq) (record {
        table = h.table;
        bounded =
            put-IsBounded id q s.notify_chans
              (omega (arith, get-IsBounded id (suc q) s.notify_chans h.bounded g)) h.bounded;
      })

  Step-IsSound : {s t : Service} → Step s t → IsSound s → IsSound t
  Step-IsSound {s} (logs_in env req) h =
      login_node-cases IsSound env req s h (register_node-IsSound env req s h)
  Step-IsSound {s} (logs_in_late found env req) h = login_looked_up-IsSound found env req s h
  Step-IsSound {s} (polls_late found list now req) h =
      update_looked_up-IsSound found list now req s h
  Step-IsSound {s} (polls lookup list now req) h = update-IsSound lookup list now req s h
  Step-IsSound {s} (wakes list id s' r e) h = update_signalled-IsSound list id s s' r e h
  Step-IsSound times_out h = unfold update_timed_out in h

  -- Whatever the requests, their order, the clock and the driver's answers, the ids in the table
  -- stay positive, distinct and within those given, and no channel holds more than five signals.
  pub Reach-IsSound : {s t : Service} → IsSound s → Reach s t → IsSound t
  Reach-IsSound h here = h
  Reach-IsSound h (more r st) = Step-IsSound st (Reach-IsSound h r)
