-- ===== src/Queue/Sync/Contents.antt =====
-- sccp_queue.c, `struct sccp_sync_queue`: the items that wait, across each call.
use wazo_libsccp.Common.{
  ◌≡◌, ◌≢◌, ◌⊎◌, refl, sym, ap, Bool, true, false, [], ◌∷◌, ◌++◌, Option, none, some, arith,
}
use wazo_libsccp.Queue.{Queue, done, closed}
use wazo_libsccp.Queue.Sync.{EventFd, SyncQueue, sync_put, sync_get_all, create}

module _ (E : EventFd) {A : Type 0} where
  -- A put that returns 0 adds the item at the end, and another changes no item.
  pub put-waiting :
      (allocated : Bool) (s : SyncQueue E.Fd A) (x : A)
      → (((sync_put E allocated s x).0 ≡ done)
          × ((sync_put E allocated s x).1.q.containers ≡ s.q.containers ++ x ∷ []))
        ⊎ (((sync_put E allocated s x).0 ≢ done)
            × ((sync_put E allocated s x).1.q.containers ≡ s.q.containers))
  unfolding sync_put
  put-waiting allocated s x = ground arith

  pub put-is_closed :
      (allocated : Bool) (s : SyncQueue E.Fd A) (x : A)
      → (sync_put E allocated s x).1.is_closed ≡ s.is_closed
  unfolding sync_put
  put-is_closed allocated s x = ground arith

  pub put-closed :
      (allocated : Bool) (s : SyncQueue E.Fd A) (x : A)
      → s.is_closed ≡ true
      → sync_put E allocated s x ≡ (closed, s)
  unfolding sync_put
  put-closed allocated s x e = rw (sync_put, e) refl

  pub get_all-waiting :
      (ret : Queue A) (s : SyncQueue E.Fd A)
      → ((sync_get_all E (some ret) s).2.q.containers ≡ [])
        × ((sync_get_all E (some ret) s).2.is_closed ≡ s.is_closed)
  unfolding sync_get_all
  get_all-waiting ret s = ground arith

  pub get_all-taken :
      (ret : Queue A) (s : SyncQueue E.Fd A)
      → (sync_get_all E (some ret) s).1
        ≡ some (record { containers = s.q.containers; item_size = s.q.item_size })
  unfolding sync_get_all
  get_all-taken ret s = refl

-- A queue that was created is empty.
pub create-waiting :
    {F A : Type 0} (a : Bool) (fd : Option F) (q : SyncQueue F A)
    → create a fd 16 ≡ some q
    → q.q.containers ≡ []
unfolding create
create-waiting true none q e = grind arith
create-waiting {F = F} {A = A} true (some f) q e =
    let s : SyncQueue F A = record {
      q = record { containers = []; item_size = 16 };
      eventfd = f;
      is_closed = false;
    } in
    let e' : s ≡ q = grind arith in sym (ap (λ t. t.q.containers) e')
create-waiting false fd q e = grind arith
