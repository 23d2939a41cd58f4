-- ===== src/Queue/Sync/Example.antt =====
-- An event file descriptor as a counter.
use wazo_libsccp.Common.{ℕ, suc, ◌==◌, ◌≡◌, true, false, not, arith, if◌then◌else◌}
use wazo_libsccp.Queue.Sync.{EventFd, IoResult, io_failed, moved}

-- The counter of an eventfd; at its largest value a write fails.
abbrev pub counter_write : ℕ → IoResult × ℕ
counter_write n = if n == 18446744073709551614 then (io_failed, n) else (moved 8, suc n)

abbrev pub counter_read : ℕ → IoResult × ℕ
counter_read n = if n == 0 then (io_failed, 0) else (moved 8, 0)

pub counter_write_moves :
    (f n : ℕ) → (counter_write f).0 ≡ moved n → (n ≡ 8) × (not ((counter_write f).1 == 0) ≡ true)
counter_write_moves f n h = ground arith

pub counter_write_fails : (f : ℕ) → (counter_write f).0 ≡ io_failed → (counter_write f).1 ≡ f
counter_write_fails f h = ground arith

pub counter_read_moves : (f : ℕ) → not (f == 0) ≡ true → (counter_read f).0 ≡ moved 8
counter_read_moves f h = ground arith

pub counter_read_clears : (f : ℕ) → not ((counter_read f).1 == 0) ≡ false
counter_read_clears f = ground arith

abbrev pub counter : EventFd
counter = record {
  Fd = ℕ;
  write = counter_write;
  read = counter_read;
  readable = λ n. not (n == 0);
  write_moves = counter_write_moves;
  write_fails = counter_write_fails;
  read_moves = counter_read_moves;
  read_clears = counter_read_clears;
}
