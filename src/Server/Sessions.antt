-- ===== src/Server/Sessions.antt =====
-- sccp_server.c: the references to sessions that a server owns and gives up.
use wazo_libsccp.Common.{
  ℕ, ◌+◌, ◌≤◌, ◌≡◌, ◌==◌, refl, ◌∙◌, Bool, true, false, ◌&&◌, List, [], ◌∷◌, ◌++◌, Option, none,
  some, if◌then◌else◌, count, count-append, arith, if_both,
}
use wazo_libsccp.Queue.Sync.{EventFd, sync_get_all}
use wazo_libsccp.Queue.Sync.Contents.{get_all-waiting, get_all-taken}
use wazo_libsccp.Session.Handle.{Events, empty_local_queue}
use wazo_libsccp.Server.{
  Server, ServerMsg, reload_config, session_end, reload_debug, stop_server, taken, process_body,
  server_process_msg, process_all, server_reload_config, server_reload_debug, server_on_sock_events,
  accept_session, after_events, server_on_queue_events, on_queue, on_sock, Out, own_session,
  debug_session, join_session, release_session, reload_session, each, join_each, unlink, Accept,
  server_on_session_end, start_session,
}

-- The entries of the trace by which a reference to that session is owned, and given up.
abbrev pub is_own : ℕ → Out → Bool
is_own s (own_session t) = t == s
is_own s _ = false

abbrev pub is_release : ℕ → Out → Bool
is_release s (release_session t) = t == s
is_release s _ = false

is_session : ℕ → ℕ → Bool
is_session s t = t == s

pub unlink-count :
    (s t : ℕ) (ss : List ℕ)
    → 1 ≤ count (λ u. u == s) ss
    → count (λ u. u == t) ss ≡ (if s == t then 1 else 0) + count (λ u. u == t) (unlink s ss)
unlink-count s t [] h = absurd (omega arith)
unlink-count s t (u ∷ ss) h = ground (arith, unlink-count s t ss)

pub each-count :
    (f : ℕ → Out) (p : Out → Bool) (ss : List ℕ) (out : List Out)
    → ((s : ℕ) → p (f s) ≡ false)
    → count p (each f ss out) ≡ count p out
each-count f p [] out h = refl
each-count f p (s ∷ ss) out h = each-count f p ss (f s ∷ out) h ∙ ground (arith, h s)

pub join_each-release :
    (s : ℕ) (ss : List ℕ) (out : List Out)
    → count (is_release s) (join_each ss out) ≡ count (λ u. u == s) ss + count (is_release s) out
unfolding join_each
join_each-release s [] out = omega arith
join_each-release s (t ∷ ss) out =
    omega (arith, join_each-release s ss (release_session t ∷ join_session t ∷ out))

pub join_each-own :
    (s : ℕ) (ss : List ℕ) (out : List Out)
    → count (is_own s) (join_each ss out) ≡ count (is_own s) out
unfolding join_each
join_each-own s [] out = refl
join_each-own s (t ∷ ss) out =
    omega (arith, join_each-own s ss (release_session t ∷ join_session t ∷ out))

-- The message is the end of that session's thread.
abbrev pub ends : ℕ → ServerMsg → Bool
ends s (session_end t) = t == s
ends s _ = false

module _ (E : EventFd) where
  -- Each reference that was owned was given up, or its session is in the list; and the list has
  -- the sessions whose threads run, whose ends wait, and whose ends are in hand.
  pub record IsAccounted (hand : List ServerMsg) (w : Server E.Fd) : Type 0 where
    pub owned :
        (s : ℕ)
        → count (is_own s) w.out ≡ count (is_release s) w.out + count (λ t. t == s) w.srv_sessions
    pub ending :
        (s : ℕ)
        → count (ends s) w.sync_q.q.containers + count (ends s) hand + count (λ t. t == s) w.running
          ≤ count (λ t. t == s) w.srv_sessions

  -- A call for each session changes no account.
  each-IsAccounted :
      (f : ℕ → Out) (hand : List ServerMsg) (w w' : Server E.Fd)
      → ((s t : ℕ) → is_own s (f t) ≡ false)
      → ((s t : ℕ) → is_release s (f t) ≡ false)
      → w'.out ≡ each f w.srv_sessions w.out
      → w'.srv_sessions ≡ w.srv_sessions
      → w'.running ≡ w.running
      → w'.sync_q ≡ w.sync_q
      → IsAccounted hand w
      → IsAccounted hand w'
  each-IsAccounted f hand w w' o r out ss running q i = record {
    owned = λ s.
        let a = each-count f (is_own s) w.srv_sessions w.out (o s) in
        let b = each-count f (is_release s) w.srv_sessions w.out (r s) in
        rw (out, ss) (omega (arith, a, b, i.owned s));
    ending = λ s. rw (ss, running, q) (i.ending s);
  }

  drop-IsAccounted :
      (m : ServerMsg) (hand : List ServerMsg) (w : Server E.Fd)
      → IsAccounted (m ∷ hand) w
      → IsAccounted hand w
  drop-IsAccounted m hand w i = record {
    owned = i.owned;
    ending = λ s. let e = i.ending s in ground (arith, e);
  }

  process_msg-IsAccounted :
      (hand : List ServerMsg) (w : Server E.Fd) (m : ServerMsg)
      → IsAccounted (m ∷ hand) w
      → IsAccounted hand (server_process_msg w m)
  unfolding server_process_msg process_body server_reload_config server_reload_debug
      server_on_session_end
  process_msg-IsAccounted hand w (reload_config cfg) i =
      each-IsAccounted (λ s. reload_session s cfg) hand w (server_process_msg w (reload_config cfg))
        (λ s t. refl) (λ s t. refl) refl refl refl refl
        (drop-IsAccounted (reload_config cfg) hand w i)
  process_msg-IsAccounted hand w reload_debug i =
      each-IsAccounted debug_session hand w (server_process_msg w reload_debug) (λ s t. refl)
        (λ s t. refl) refl refl refl refl (drop-IsAccounted reload_debug hand w i)
  process_msg-IsAccounted hand w stop_server i = record {
    owned = i.owned;
    ending = λ s. omega (arith, i.ending s);
  }
  process_msg-IsAccounted hand w (session_end t) i =
      let here : 1 ≤ count (λ u. u == t) w.srv_sessions = let e = i.ending t in ground (arith, e) in
      record {
        owned = λ s. omega (arith, i.owned s, unlink-count t s w.srv_sessions here);
        ending = λ s. omega (arith, i.ending s, unlink-count t s w.srv_sessions here);
      }

  process_all-IsAccounted :
      (w : Server E.Fd) (ms : List ServerMsg) → IsAccounted ms w → IsAccounted [] (process_all w ms)
  unfolding process_all
  process_all-IsAccounted w [] i = i
  process_all-IsAccounted w (m ∷ ms) i =
      process_all-IsAccounted (server_process_msg w m) ms (process_msg-IsAccounted ms w m i)

  stop_if-IsAccounted :
      (b : Bool) (w : Server E.Fd)
      → IsAccounted [] w
      → IsAccounted [] (if b then record w { stop = true } else w)
  stop_if-IsAccounted b w i =
      if_both (IsAccounted []) b (record w { stop = true }) w
        (record { owned = i.owned; ending = i.ending }) i

  pub on_queue-IsAccounted :
      (w : Server E.Fd) (events : Option Events)
      → IsAccounted [] w
      → IsAccounted [] (on_queue E w events)
  unfolding on_queue server_on_queue_events
  on_queue-IsAccounted w none i = i
  on_queue-IsAccounted w (some events) i =
      let r = sync_get_all E (some empty_local_queue) w.sync_q in
      let e = get_all-taken E empty_local_queue w.sync_q in
      let (z, k) = get_all-waiting E empty_local_queue w.sync_q in
      let w0 : Server E.Fd = record w { sync_q = r.2 } in
      let i0 : IsAccounted (taken r.1) w0 = record {
        owned = i.owned;
        ending = λ s. rw (e, z) (omega (arith, i.ending s));
      } in
      let processed = process_all w0 (taken r.1) in
      stop_if-IsAccounted events.others (if events.pollin then processed else w) (
        if_both (IsAccounted []) events.pollin processed w
          (process_all-IsAccounted w0 (taken r.1) i0) i)

  start_session-IsAccounted :
      (w : Server E.Fd) (s : ℕ) (a b : Bool)
      → IsAccounted [] w
      → IsAccounted [] (start_session w s a b)
  unfolding start_session
  start_session-IsAccounted w s a b i =
      let refused : Server E.Fd = record w { out = release_session s ∷ own_session s ∷ w.out } in
      let kept : Server E.Fd = record w {
        srv_sessions = w.srv_sessions ++ s ∷ [];
        running = s ∷ w.running;
        out = own_session s ∷ w.out;
      } in
      let r : IsAccounted [] refused = record {
        owned = λ t. omega (arith, i.owned t);
        ending = i.ending;
      } in
      let k : IsAccounted [] kept = record {
        owned = λ t. omega (arith, i.owned t, count-append (λ u. u == t) w.srv_sessions (s ∷ []));
        ending = λ t. omega (arith, i.ending t, count-append (λ u. u == t) w.srv_sessions (s ∷ []));
      } in
      if_both (IsAccounted []) a (if b then kept else refused) refused
        (if_both (IsAccounted []) b kept refused k r) r

  accept_session-IsAccounted :
      (w : Server E.Fd) (events : Events) (s : Option ℕ) (a b : Bool)
      → IsAccounted [] w
      → IsAccounted [] (accept_session w events s a b)
  unfolding accept_session
  accept_session-IsAccounted w events none a b i = i
  accept_session-IsAccounted w events (some s) a b i =
      let v = start_session w s a b in
      let i' = start_session-IsAccounted w s a b i in
      if_both (IsAccounted []) (a && b) (after_events v events) v
        (stop_if-IsAccounted events.others v i') i'

  pub on_sock-IsAccounted :
      (w : Server E.Fd) (events : Option Events) (a : Accept)
      → IsAccounted [] w
      → IsAccounted [] (on_sock E w events a)
  unfolding on_sock server_on_sock_events
  on_sock-IsAccounted w none a i = i
  on_sock-IsAccounted w (some events) a i =
      let v = accept_session w events a.session a.srv_allocated a.thread_started in
      let failing : Server E.Fd = record w { stop = true } in
      if_both (IsAccounted []) events.pollin (if a.accepted then v else failing)
        (after_events w events)
        (if_both (IsAccounted []) a.accepted v failing
          (accept_session-IsAccounted w events a.session a.srv_allocated a.thread_started i)
          (stop_if-IsAccounted true w i))
        (stop_if-IsAccounted events.others w i)
