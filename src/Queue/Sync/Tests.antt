-- ===== src/Queue/Sync/Tests.antt =====
-- Runs of the synchronised queue over an event file descriptor that is a counter.
use wazo_libsccp.Queue.Sync.Example.{counter}
use wazo_libsccp.Common.{ℕ, ◌==◌, ◌≡◌, refl, true, false, not, List, [], ◌∷◌, ◌++◌, some}
use wazo_libsccp.Queue.{Queue, failed}
use wazo_libsccp.Queue.Sync.{SyncQueue, sync_put, sync_get, sync_get_all, create}
use wazo_libsccp.Queue.Sync.Trace.{Op, puts, gets, gets_all, closes, run, waiting, delivered_all}
use wazo_libsccp.Queue.Sync.Order.{run_accounts}
use wazo_libsccp.Queue.Sync.Signal.{
  IsSignalled, IsExact, run-IsSignalled, run-IsExact, put_unallocated_stays_readable,
}

abbrev fresh : SyncQueue ℕ ℕ
fresh = record { q = record { containers = []; item_size = 16 }; eventfd = 0; is_closed = false }

abbrev other : Queue ℕ
other = record { containers = []; item_size = 0 }

abbrev script : List (Op ℕ)
script =
    puts true 7 ∷ puts true 8 ∷ gets ∷ puts false 9 ∷ gets_all other ∷ closes ∷ puts true 1 ∷ []

create_test : create true (some 0) 16 ≡ some fresh
unfolding create
create_test = refl

put_then_get_test : (sync_get counter (sync_put counter true fresh 5).1).1 ≡ some 5
unfolding sync_put sync_get
put_then_get_test = refl

run_accounts_example :
    let t = run counter fresh script in t.given_out ++ waiting counter t.final ≡ t.taken_in
run_accounts_example = run_accounts counter script fresh

run-IsSignalled_example : IsSignalled counter (run counter fresh script).final
run-IsSignalled_example = run-IsSignalled counter script fresh refl

run-IsExact_example :
    IsExact counter (run counter fresh (puts true 7 ∷ gets ∷ gets_all other ∷ [])).final
run-IsExact_example =
    run-IsExact counter (puts true 7 ∷ gets ∷ gets_all other ∷ []) fresh (refl, tt) refl

put_unallocated_stays_readable_example :
    let t = sync_put counter false fresh 3 in
    let u = sync_get_all counter (some other) t.1 in
    (t.0 ≡ failed)
    × (not (t.1.eventfd == 0) ≡ true)
    × (delivered_all u.1 ≡ [])
    × (not (u.2.eventfd == 0) ≡ true)
put_unallocated_stays_readable_example =
    put_unallocated_stays_readable counter fresh 3 other refl refl refl
