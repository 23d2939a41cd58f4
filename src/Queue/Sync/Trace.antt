-- ===== src/Queue/Sync/Trace.antt =====
-- sccp_queue.c, `struct sccp_sync_queue`: sequences of calls, as the lock orders them.
use wazo_libsccp.Common.{Bool, List, [], ◌∷◌, ◌++◌, Option, none, some}
use wazo_libsccp.Queue.{Queue, Ret, done}
use wazo_libsccp.Queue.Sync.{EventFd, SyncQueue, sync_put, sync_get, sync_get_all, close}

-- The calls of the producers and of the consumer, in the order in which they take the lock. A put
-- comes with what the allocator answers.
pub data Op (A : Type 0) : Type 0 where
  puts : Bool → A → Op A
  gets : Op A
  gets_all : Queue A → Op A
  closes : Op A

-- What a put added: the item, if it returned 0.
abbrev pub accepted : {A : Type 0} → Ret → A → List A
accepted done x = x ∷ []
accepted _ x = []

abbrev pub delivered : {A : Type 0} → Option A → List A
delivered none = []
delivered (some x) = x ∷ []

abbrev pub delivered_all : {A : Type 0} → Option (Queue A) → List A
delivered_all none = []
delivered_all (some q) = q.containers

-- What a run took in, what it gave out, and where it ended.
pub record Trace (F A : Type 0) : Type 0 where
  pub taken_in : List A
  pub given_out : List A
  pub final : SyncQueue F A

module _ (E : EventFd) {A : Type 0} where
  unfoldable pub step : SyncQueue E.Fd A → Op A → Trace E.Fd A
  step s (puts allocated x) =
      let (r, t) = sync_put E allocated s x in
      record { taken_in = accepted r x; given_out = []; final = t }
  step s gets =
      let (_, x, t) = sync_get E s in record { taken_in = []; given_out = delivered x; final = t }
  step s (gets_all ret) =
      let (_, out, t) = sync_get_all E (some ret) s in
      record { taken_in = []; given_out = delivered_all out; final = t }
  step s closes = record { taken_in = []; given_out = []; final = close s }

  unfoldable pub run : SyncQueue E.Fd A → List (Op A) → Trace E.Fd A
  run s [] = record { taken_in = []; given_out = []; final = s }
  run s (o ∷ os) =
      let t = step s o in
      let rest = run t.final os in
      record {
        taken_in = t.taken_in ++ rest.taken_in;
        given_out = t.given_out ++ rest.given_out;
        final = rest.final;
      }

  -- The items that wait, oldest first.
  abbrev pub waiting : SyncQueue E.Fd A → List A
  waiting s = s.q.containers
