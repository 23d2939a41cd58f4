-- ===== src/Queue/Sync/Signal.antt =====
-- sccp_queue.c, `struct sccp_sync_queue`: when the poll loop sees the eventfd readable.
use wazo_libsccp.Common.{
  ℕ, ◌≡◌, false, refl, ◌∙◌, ◌||◌, ap, true, false, not, List, [], ◌∷◌, some, ◌⊎◌, inl, inr,
  is_empty, arith,
}
use wazo_libsccp.Queue.{Queue, failed}
use wazo_libsccp.Queue.Sync.{
  EventFd, IoResult, io_failed, SyncQueue, moved, sync_put, sync_get, sync_get_all, close,
}
use wazo_libsccp.Queue.Sync.Trace.{Op, puts, gets, gets_all, closes, step, run, delivered_all}

result-cases : (r : IoResult) → (r ≡ io_failed) ⊎ ((n : ℕ) × (r ≡ moved n))
result-cases io_failed = inl refl
result-cases (moved n) = inr (n, refl)

module _ (E : EventFd) where
  open E use {Fd, write, readable, write_moves, write_fails}

  write_cases :
      (f : Fd)
      → (((write f).0 ≡ io_failed) × ((write f).1 ≡ f))
        ⊎ (((write f).0 ≡ moved 8) × (readable (write f).1 ≡ true))
  write_cases f = elim (result-cases (write f).0) [
    | inl e ↦ inl (e, write_fails f e)
    | inr (n, e) ↦ let (eight, on) = write_moves f n e in inr (e ∙ ap moved eight, on)
  ]

module _ (E : EventFd) {A : Type 0} where
  open E use {Fd, write, readable, read_clears}

  -- A consumer that polls does not sleep while an item waits.
  abbrev pub IsSignalled : SyncQueue Fd A → Type 0
  IsSignalled s = (is_empty s.q.containers || readable s.eventfd) ≡ true

  step-IsSignalled :
      (s : SyncQueue Fd A) (o : Op A) → IsSignalled s → IsSignalled (step E s o).final
  unfolding step sync_put sync_get sync_get_all close
  step-IsSignalled s (puts allocated x) h = ground (arith, write_cases E s.eventfd)
  step-IsSignalled s gets h = ground arith
  step-IsSignalled s (gets_all ret) h = ground arith
  step-IsSignalled s closes h = h

  -- Whatever the allocator and the descriptor do: if a waiting item makes the descriptor readable
  -- before a sequence of calls, then so it does after it.
  pub run-IsSignalled :
      (os : List (Op A)) (s : SyncQueue Fd A) → IsSignalled s → IsSignalled (run E s os).final
  unfolding run
  run-IsSignalled [] s h = h
  run-IsSignalled (o ∷ os) s h = run-IsSignalled os (step E s o).final (step-IsSignalled s o h)

  -- The descriptor is readable exactly when an item waits.
  abbrev pub IsExact : SyncQueue Fd A → Type 0
  IsExact s = readable s.eventfd ≡ not (is_empty s.q.containers)

  -- No call of the run meets a failed allocation.
  abbrev pub AllAllocated : List (Op A) → Type 0
  AllAllocated [] = Unit {0}
  AllAllocated (puts allocated x ∷ os) = (allocated ≡ true) × AllAllocated os
  AllAllocated (_ ∷ os) = AllAllocated os

  put-IsExact : (s : SyncQueue Fd A) (x : A) → IsExact s → IsExact (sync_put E true s x).1
  unfolding sync_put
  put-IsExact s x h = ground (arith, write_cases E s.eventfd)

  get-IsExact : (s : SyncQueue Fd A) → IsExact s → IsExact (sync_get E s).2
  unfolding sync_get
  get-IsExact s h = ground (arith, read_clears s.eventfd)

  get_all-IsExact :
      (ret : Queue A) (s : SyncQueue Fd A) → IsExact s → IsExact (sync_get_all E (some ret) s).2
  unfolding sync_get_all
  get_all-IsExact ret s h = ground (arith, read_clears s.eventfd)

  step-IsExact :
      (s : SyncQueue Fd A) (o : Op A)
      → AllAllocated (o ∷ [])
      → IsExact s
      → IsExact (step E s o).final
  unfolding step close
  step-IsExact s (puts allocated x) h e = rw h.0 (put-IsExact s x e)
  step-IsExact s gets h e = get-IsExact s e
  step-IsExact s (gets_all ret) h e = get_all-IsExact ret s e
  step-IsExact s closes h e = e

  head-AllAllocated : (o : Op A) (os : List (Op A)) → AllAllocated (o ∷ os) → AllAllocated (o ∷ [])
  head-AllAllocated (puts allocated x) os h = (h.0, tt)
  head-AllAllocated gets os h = tt
  head-AllAllocated (gets_all ret) os h = tt
  head-AllAllocated closes os h = tt

  tail-AllAllocated : (o : Op A) (os : List (Op A)) → AllAllocated (o ∷ os) → AllAllocated os
  tail-AllAllocated (puts allocated x) os h = h.1
  tail-AllAllocated gets os h = h
  tail-AllAllocated (gets_all ret) os h = h
  tail-AllAllocated closes os h = h

  -- While no allocation fails, every sequence of calls keeps the descriptor readable exactly when
  -- an item waits: the consumer is neither left asleep nor woken for nothing.
  pub run-IsExact :
      (os : List (Op A)) (s : SyncQueue Fd A)
      → AllAllocated os
      → IsExact s
      → IsExact (run E s os).final
  unfolding run
  run-IsExact [] s h e = e
  run-IsExact (o ∷ os) s h e =
      run-IsExact os (step E s o).final (tail-AllAllocated o os h)
        (step-IsExact s o (head-AllAllocated o os h) e)

  -- A put to an open queue without items, whose signal was written and whose allocation then
  -- fails, returns -1 and leaves the descriptor readable with no item; a `get_all` that follows
  -- brings nothing out and leaves it readable too.
  pub put_unallocated_stays_readable :
      (s : SyncQueue Fd A) (x : A) (ret : Queue A)
      → s.is_closed ≡ false
      → s.q.containers ≡ []
      → (write s.eventfd).0 ≡ moved 8
      → let t = sync_put E false s x in
        let u = sync_get_all E (some ret) t.1 in
        (t.0 ≡ failed)
        × (readable t.1.eventfd ≡ true)
        × (delivered_all u.1 ≡ [])
        × (readable u.2.eventfd ≡ true)
  unfolding sync_put sync_get_all
  put_unallocated_stays_readable s x ret h e w = ground (arith, write_cases E s.eventfd)
