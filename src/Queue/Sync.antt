-- ===== src/Queue/Sync.antt =====
-- sccp_queue.c, second half: `struct sccp_sync_queue`, a closable queue whose eventfd a poll loop
-- watches. The mutex makes each operation one step. The kernel's eventfd is the parameter
-- `EventFd`, whose laws are those of eventfd(2); logging is left out.
pub mod Contents
pub mod Trace
pub mod Signal
pub mod Order
pub mod Example
mod Tests
use wazo_libsccp.Common.{
  ℕ, ◌==◌, ◌≡◌, Bool, true, false, List, [], Option, none, some, if◌then◌else◌, is_some,
}
use wazo_libsccp.Queue.{
  Queue, Ret, done, failed, closed, empty, inval, init, put, get, move_to, is_empty_queue,
}

-- What read(2) and write(2) return: -1, or a number of bytes.
pub data IoResult : Type 0 where
  io_failed : IoResult
  moved : ℕ → IoResult

-- A non-blocking event file descriptor in mode EFD_NONBLOCK.
pub record EventFd : Type 1 where
  pub Fd : Type 0
  pub write : Fd → IoResult × Fd
  pub read : Fd → IoResult × Fd
  -- poll(2) reports POLLIN.
  pub readable : Fd → Bool
  -- A write moves eight bytes and adds 1 to the counter, or fails and changes nothing.
  pub write_moves :
      (f : Fd) (n : ℕ) → (write f).0 ≡ moved n → (n ≡ 8) × (readable (write f).1 ≡ true)
  pub write_fails : (f : Fd) → (write f).0 ≡ io_failed → (write f).1 ≡ f
  -- A read takes the eight bytes of a positive counter, and leaves 0.
  pub read_moves : (f : Fd) → readable f ≡ true → (read f).0 ≡ moved 8
  pub read_clears : (f : Fd) → readable (read f).1 ≡ false

pub record SyncQueue (F A : Type 0) : Type 0 where
  pub q : Queue A
  pub eventfd : F
  pub is_closed : Bool

-- The result of `signal_fd` and `clear_fd`: -1 on an error and on 0 bytes.
abbrev pub io_ret : IoResult → Ret
io_ret io_failed = failed
io_ret (moved n) = if n == 0 then failed else done

module _ {F A : Type 0} where
  -- `opened` is what eventfd(2) gave. The result of `sccp_queue_init` is not looked at; the
  -- memory is zeroed, so a refused size leaves an empty queue.
  unfoldable pub create : Bool → Option F → ℕ → Option (SyncQueue F A)
  unfolding init
  create allocated opened item_size =
      if allocated
      then elim opened [
        | none ↦ none
        | some fd ↦ some (record {
          q = (init (record { containers = []; item_size = 0 }) item_size).1;
          eventfd = fd;
          is_closed = false;
        })
      ]
      else none

  unfoldable pub close : SyncQueue F A → SyncQueue F A
  close s = record s { is_closed = true }

module _ (E : EventFd) {A : Type 0} where
  unfoldable pub signal_fd : SyncQueue E.Fd A → Ret × SyncQueue E.Fd A
  signal_fd s = let (n, fd) = E.write s.eventfd in (io_ret n, record s { eventfd = fd })

  unfoldable pub clear_fd : SyncQueue E.Fd A → Ret × SyncQueue E.Fd A
  clear_fd s = let (n, fd) = E.read s.eventfd in (io_ret n, record s { eventfd = fd })

  -- The end of `put_no_lock`, once the reader is signalled.
  enqueue : Bool → A → Ret × SyncQueue E.Fd A → Ret × SyncQueue E.Fd A
  unfolding put
  enqueue allocated item (done, s) = let (r, q) = put allocated s.q item in (r, record s { q = q })
  enqueue allocated item (_, s) = (failed, s)

  unfoldable pub sync_put : Bool → SyncQueue E.Fd A → A → Ret × SyncQueue E.Fd A
  unfolding enqueue is_empty_queue signal_fd
  sync_put allocated s item =
      if s.is_closed
      then (closed, s)
      else enqueue allocated item (if is_empty_queue s.q then signal_fd s else (done, s))

  -- The end of `get_no_lock`, with what `sccp_queue_get` returned.
  after_get : SyncQueue E.Fd A → Ret × Option A × Queue A → Ret × Option A × SyncQueue E.Fd A
  unfolding is_empty_queue clear_fd
  after_get s (done, item, q) =
      let t = record s { q = q } in (done, item, if is_empty_queue q then (clear_fd t).1 else t)
  after_get s (_, item, q) = (empty, item, record s { q = q })

  unfoldable pub sync_get : SyncQueue E.Fd A → Ret × Option A × SyncQueue E.Fd A
  unfolding after_get get
  sync_get s = after_get s (get s.q)

  get_all_no_lock : Queue A → SyncQueue E.Fd A → Queue A × SyncQueue E.Fd A
  unfolding is_empty_queue clear_fd move_to
  get_all_no_lock ret s =
      let (ret', q) = move_to ret s.q in
      let t = record s { q = q } in (ret', if is_empty_queue ret' then t else (clear_fd t).1)

  -- `ret` is the caller's queue; without one, SCCP_QUEUE_INVAL and no change.
  unfoldable pub sync_get_all :
      Option (Queue A) → SyncQueue E.Fd A → Ret × Option (Queue A) × SyncQueue E.Fd A
  unfolding get_all_no_lock
  sync_get_all none s = (inval, none, s)
  sync_get_all (some ret) s = let (ret', s') = get_all_no_lock ret s in (done, some ret', s')
