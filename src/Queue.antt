-- ===== src/Queue.antt =====
-- sccp_queue.c, first half: the plain FIFO of fixed-size items, `struct sccp_queue`.
-- An item is a value of `A`: `memcpy` of `item_size` bytes copies it whole. The list of containers
-- (AST_LIST_HEAD_NOLOCK) is a list of items, oldest first. Whether `ast_calloc` gave a container is
-- an argument, `allocated`. A null pointer is `none`.
pub mod Sync
use wazo_libsccp.Common.{
  ℕ, ◌==◌, Bool, List, [], ◌∷◌, ◌++◌, Option, none, some, is_empty, if◌then◌else◌,
}

-- The `int` results: 0, -1 and the SCCP_QUEUE_* codes of sccp_queue.h.
pub data Ret : Type 0 where
  done failed closed empty inval : Ret

pub record Queue {ℓ} (A : Type ℓ) : Type ℓ where
  pub containers : List A
  pub item_size : ℕ

module _ {ℓ} {A : Type ℓ} where
  -- A refused size leaves the structure as it was.
  unfoldable pub init : Queue A → ℕ → Ret × Queue A
  init q item_size =
      if item_size == 0
      then (inval, q)
      else (done, record { containers = []; item_size = item_size })

  -- Every container is removed and freed.
  unfoldable pub destroy : Queue A → Queue A
  destroy q = record q { containers = [] }

  unfoldable pub put : Bool → Queue A → A → Ret × Queue A
  put allocated q item =
      if allocated then (done, record q { containers = q.containers ++ item ∷ [] }) else (failed, q)

  -- The item goes out through the second component.
  unfoldable pub get : Queue A → Ret × Option A × Queue A
  get q = elim q.containers [
    | [] ↦ (failed, none, q)
    | item ∷ rest ↦ (done, some item, record q { containers = rest })
  ]

  -- The assignments of `sccp_queue_move`: the new `dest`, and `src` with its list reset.
  -- The two are different structures.
  unfoldable pub move_to : Queue A → Queue A → Queue A × Queue A
  move_to dest src = (
    record dest { containers = src.containers; item_size = src.item_size },
    record src { containers = [] },
  )

  unfoldable pub move :
      Option (Queue A) → Option (Queue A) → Ret × Option (Queue A) × Option (Queue A)
  unfolding move_to
  move none src = (inval, none, src)
  move (some dest) none = (inval, some dest, none)
  move (some dest) (some src) =
      let (dest', src') = move_to dest src in (done, some dest', some src')

  unfoldable pub is_empty_queue : Queue A → Bool
  is_empty_queue q = is_empty q.containers
