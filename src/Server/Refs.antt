-- ===== src/Server/Refs.antt =====
-- sccp_server.c: the references to configurations that a server and its queue own.
use wazo_libsccp.Common.{
  ℕ, ◌+◌, ◌≡◌, ◌≢◌, ◌==◌, ◌⊎◌, inl, inr, refl, ◌∙◌, sym, ap, Bool, true, false, List, [], ◌∷◌, ◌++◌,
  Option, none, some, if◌then◌else◌, count, count-append, arith, if_both,
}
use wazo_libsccp.Queue.{Ret, done}
use wazo_libsccp.Queue.Sync.{EventFd, SyncQueue, sync_put, sync_get_all}
use wazo_libsccp.Queue.Sync.Contents.{
  put-waiting, put-is_closed, put-closed, get_all-waiting, get_all-taken,
}
use wazo_libsccp.Session.Handle.{Events, empty_local_queue}
use wazo_libsccp.Server.{
  Server, ServerMsg, reload_config, session_end, reload_debug, stop_server, server_msg_destroy,
  destroy_msgs, taken, process_body, server_process_msg, process_all, queued, server_queue_msg,
  server_on_queue_events, on_queue, server_reload_config,
}

abbrev pub owns : ℕ → ServerMsg → Bool
owns c (reload_config d) = d == c
owns c (session_end s) = false
owns c reload_debug = false
owns c stop_server = false

abbrev pub owned : ℕ → ServerMsg → ℕ
owned c m = if owns c m then 1 else 0

destroy-refs :
    (m : ServerMsg) (refs : ℕ → ℕ) (c k : ℕ)
    → refs c ≡ k + owned c m
    → server_msg_destroy m refs c ≡ k
unfolding server_msg_destroy
destroy-refs (session_end s) refs c k e = omega (arith, e)
destroy-refs reload_debug refs c k e = omega (arith, e)
destroy-refs stop_server refs c k e = omega (arith, e)
destroy-refs (reload_config d) refs c k e = ground (arith, e)

pub destroy_msgs-refs :
    (ms : List ServerMsg) (refs : ℕ → ℕ) (c k : ℕ)
    → refs c ≡ k + count (owns c) ms
    → destroy_msgs ms refs c ≡ k
unfolding destroy_msgs
destroy_msgs-refs [] refs c k e = omega (arith, e)
destroy_msgs-refs (m ∷ ms) refs c k e =
    destroy_msgs-refs ms (server_msg_destroy m refs) c k
      (destroy-refs m refs c (k + count (owns c) ms) (omega (arith, e)))

module _ (E : EventFd) where
  -- The references of others, `base`, one for the server's own configuration, one for each message
  -- that waits, and those of the messages in hand. A closed queue is empty.
  pub record IsBalanced (base : ℕ → ℕ) (hand : List ServerMsg) (w : Server E.Fd) : Type 0 where
    pub refs :
        (c : ℕ)
        → w.refs c
          ≡ base c
            + (if w.cfg == c then 1 else 0)
            + count (owns c) w.sync_q.q.containers
            + count (owns c) hand
    pub closed_empty : w.sync_q.is_closed ≡ true → w.sync_q.q.containers ≡ []

  -- Only four fields matter.
  pub like-IsBalanced :
      (base : ℕ → ℕ) (hand : List ServerMsg) (w w' : Server E.Fd)
      → w'.refs ≡ w.refs
      → w'.cfg ≡ w.cfg
      → w'.sync_q ≡ w.sync_q
      → IsBalanced base hand w
      → IsBalanced base hand w'
  like-IsBalanced base hand w w' r f q b = record {
    refs = λ c. rw (r, f, q) (b.refs c);
    closed_empty = rw q b.closed_empty;
  }

  queued-IsBalanced :
      (base : ℕ → ℕ) (w : Server E.Fd) (m : ServerMsg) (r : Ret) (q : SyncQueue E.Fd ServerMsg)
      → ((r ≡ done) × (q.q.containers ≡ w.sync_q.q.containers ++ m ∷ []))
        ⊎ ((r ≢ done) × (q.q.containers ≡ w.sync_q.q.containers))
      → (q.is_closed ≡ true → q.q.containers ≡ [])
      → IsBalanced base (m ∷ []) w
      → IsBalanced base [] (queued E w m (r, q)).1
  unfolding queued
  queued-IsBalanced base w m done q (inl (r, e)) z b = record {
    refs = λ c.
        let n = count-append (owns c) w.sync_q.q.containers (m ∷ []) in
        rw e (omega (arith, b.refs c, n));
    closed_empty = z;
  }
  queued-IsBalanced base w m done q (inr (r, e)) z b = absurd (r refl)
  queued-IsBalanced base w m _ q (inl (r, e)) z b = absurd (grind (arith, r))
  queued-IsBalanced base w m _ q (inr (r, e)) z b = record {
    refs = λ c. rw e (
        omega (
          arith,
          b.refs c,
          destroy-refs m w.refs c
              (base c + (if w.cfg == c then 1 else 0) + count (owns c) w.sync_q.q.containers)
              (omega (arith, b.refs c)),
        ));
    closed_empty = z;
  }

  put-closed_empty :
      (allocated : Bool) (s : SyncQueue E.Fd ServerMsg) (m : ServerMsg)
      → (s.is_closed ≡ true → s.q.containers ≡ [])
      → (sync_put E allocated s m).1.is_closed ≡ true
      → (sync_put E allocated s m).1.q.containers ≡ []
  put-closed_empty allocated s m z c =
      let o : s.is_closed ≡ true = sym (put-is_closed E allocated s m) ∙ c in
      ap (λ p. p.1.q.containers) (put-closed E allocated s m o) ∙ z o

  pub queue_msg-IsBalanced :
      (base : ℕ → ℕ) (allocated : Bool) (w : Server E.Fd) (m : ServerMsg)
      → IsBalanced base (m ∷ []) w
      → IsBalanced base [] (server_queue_msg E allocated w m).1
  unfolding server_queue_msg
  queue_msg-IsBalanced base allocated w m b =
      let p = sync_put E allocated w.sync_q m in
      queued-IsBalanced base w m p.0 p.1 (put-waiting E allocated w.sync_q m)
        (put-closed_empty allocated w.sync_q m b.closed_empty) b

  process_msg-IsBalanced :
      (base : ℕ → ℕ) (hand : List ServerMsg) (w : Server E.Fd) (m : ServerMsg)
      → IsBalanced base (m ∷ hand) w
      → IsBalanced base hand (server_process_msg w m)
  unfolding server_process_msg process_body server_reload_config server_msg_destroy
  process_msg-IsBalanced base hand w (reload_config cfg) b = record {
    refs = λ c. let e = b.refs c in ground (arith, e);
    closed_empty = b.closed_empty;
  }
  process_msg-IsBalanced base hand w (session_end s) b = record {
    refs = λ c. omega (arith, b.refs c);
    closed_empty = b.closed_empty;
  }
  process_msg-IsBalanced base hand w reload_debug b = record {
    refs = λ c. omega (arith, b.refs c);
    closed_empty = b.closed_empty;
  }
  process_msg-IsBalanced base hand w stop_server b = record {
    refs = λ c. omega (arith, b.refs c);
    closed_empty = b.closed_empty;
  }

  process_all-IsBalanced :
      (base : ℕ → ℕ) (w : Server E.Fd) (ms : List ServerMsg)
      → IsBalanced base ms w
      → IsBalanced base [] (process_all w ms)
  unfolding process_all
  process_all-IsBalanced base w [] b = b
  process_all-IsBalanced base w (m ∷ ms) b =
      process_all-IsBalanced base (server_process_msg w m) ms (process_msg-IsBalanced base ms w m b)

  take_all-IsBalanced :
      (base : ℕ → ℕ) (w : Server E.Fd)
      → IsBalanced base [] w
      → let r = sync_get_all E (some empty_local_queue) w.sync_q in
        IsBalanced base (taken r.1) (record w { sync_q = r.2 })
  take_all-IsBalanced base w b =
      let r = sync_get_all E (some empty_local_queue) w.sync_q in
      let e = get_all-taken E empty_local_queue w.sync_q in
      let (z, k) = get_all-waiting E empty_local_queue w.sync_q in
      record { refs = λ c. rw (e, z) (omega (arith, b.refs c)); closed_empty = λ o. z }

  stop_if-IsBalanced :
      (base : ℕ → ℕ) (b : Bool) (w : Server E.Fd)
      → IsBalanced base [] w
      → IsBalanced base [] (if b then record w { stop = true } else w)
  stop_if-IsBalanced base b w i =
      if_both (IsBalanced base []) b (record w { stop = true }) w
        (like-IsBalanced base [] w (record w { stop = true }) refl refl refl i) i

  pub on_queue-IsBalanced :
      (base : ℕ → ℕ) (w : Server E.Fd) (events : Option Events)
      → IsBalanced base [] w
      → IsBalanced base [] (on_queue E w events)
  unfolding on_queue server_on_queue_events
  on_queue-IsBalanced base w none b = b
  on_queue-IsBalanced base w (some events) b =
      let r = sync_get_all E (some empty_local_queue) w.sync_q in
      let processed = process_all (record w { sync_q = r.2 }) (taken r.1) in
      stop_if-IsBalanced base events.others (if events.pollin then processed else w) (
        if_both (IsBalanced base []) events.pollin processed w
          (process_all-IsBalanced base (record w { sync_q = r.2 }) (taken r.1)
            (take_all-IsBalanced base w b))
          b)
