-- ===== src/Device/Valid.antt =====
-- sccp_device.c: no pointer of a device dangles. The predicate, and the lists it
-- is about.
use wazo_libsccp.Common.{
  ℕ, ◌+◌, ◌<◌, ◌==◌, ◌≡◌, ◌≢◌, refl, Bool, true, false, ◌||◌, List, [], ◌∷◌, ◌++◌, Option, none,
  some, if◌then◌else◌, is_some, arith,
}
use wazo_libsccp.Device.Types.{Device, RecvStatus}
use wazo_libsccp.Device.Core.{is_recv_closed}
use wazo_libsccp.Device.Calls.{remove}

abbrev pub mem : ℕ → List ℕ → Bool
mem p [] = false
mem p (q ∷ qs) = q == p || mem p qs

-- A pointer that may be null is in the list.
abbrev pub mem_or_null : Option ℕ → List ℕ → Bool
mem_or_null none ps = true
mem_or_null (some p) ps = mem p ps

abbrev pub AllDistinct : List ℕ → Type 0
AllDistinct [] = Unit {0}
AllDistinct (p ∷ ps) = (mem p ps ≡ false) × AllDistinct ps

abbrev pub AllBelow : ℕ → List ℕ → Type 0
AllBelow n [] = Unit {0}
AllBelow n (p ∷ ps) = (p < n) × AllBelow n ps

-- The partner of `p`, if it has one, is another subchannel of the line, whose partner is `p`.
abbrev pub Paired : List ℕ → (ℕ → Option ℕ) → ℕ → Option ℕ → Type 0
Paired ps related p none = Unit {0}
Paired ps related p (some q) = (mem q ps ≡ true) × (related q ≡ some p) × (q ≢ p)

pub record Valid (ps : List ℕ) (next : ℕ) (active : Option ℕ) (recv : RecvStatus)
    (related : ℕ → Option ℕ) : Type 0 where
  pub distinct : AllDistinct ps
  pub allocated : AllBelow next ps
  pub active_listed : mem_or_null active ps ≡ true
  pub recv_has_active : (is_recv_closed recv || is_some active) ≡ true
  pub paired : (p : ℕ) → mem p ps ≡ true → Paired ps related p (related p)

abbrev pub related_of : Device → ℕ → Option ℕ
related_of d p = (d.heap p).related

-- The subchannels of the line are distinct objects; the active one is among them; the receive channel
-- of the phone is open, or being opened, only for an active subchannel; and related subchannels are
-- two of the line that point at one another.
abbrev pub IsValid : Device → Type 0
IsValid d = Valid d.subchans d.next_ptr d.active_subchan d.recv_chan_status (related_of d)

pub mem-append : (p : ℕ) (xs ys : List ℕ) → mem p (xs ++ ys) ≡ (mem p xs || mem p ys)
mem-append p [] ys = refl
mem-append p (x ∷ xs) ys = ground (arith, mem-append p xs ys)

pub mem-lt : (p n : ℕ) (ps : List ℕ) → AllBelow n ps → mem p ps ≡ true → p < n
mem-lt p n [] h m = cc
mem-lt p n (q ∷ ps) h m = ground (arith, mem-lt p n ps h.1)

pub AllBelow-suc : (n : ℕ) (ps : List ℕ) → AllBelow n ps → AllBelow (n + 1) ps
AllBelow-suc n [] h = tt
AllBelow-suc n (q ∷ ps) h = (omega arith, AllBelow-suc n ps h.1)

pub AllBelow-snoc : (n : ℕ) (ps : List ℕ) → AllBelow n ps → AllBelow (n + 1) (ps ++ n ∷ [])
AllBelow-snoc n [] h = (omega arith, tt)
AllBelow-snoc n (q ∷ ps) h = (omega arith, AllBelow-snoc n ps h.1)

pub fresh_not_mem : (n : ℕ) (ps : List ℕ) → AllBelow n ps → mem n ps ≡ false
fresh_not_mem n [] h = refl
fresh_not_mem n (q ∷ ps) h = ground (arith, fresh_not_mem n ps h.1)

pub AllDistinct-snoc :
    (n : ℕ) (ps : List ℕ) → mem n ps ≡ false → AllDistinct ps → AllDistinct (ps ++ n ∷ [])
AllDistinct-snoc n [] m h = (refl, tt)
AllDistinct-snoc n (q ∷ ps) m h =
    (ground (arith, mem-append q ps (n ∷ [])), AllDistinct-snoc n ps (ground arith) h.1)

-- With distinct entries a removal takes the entry out, and nothing else.
pub mem-remove :
    (q p : ℕ) (ps : List ℕ)
    → AllDistinct ps
    → mem q (remove p ps) ≡ (if q == p then false else mem q ps)
unfolding remove
mem-remove q p [] h = ground arith
mem-remove q p (x ∷ ps) h = ground (arith, mem-remove q p ps h.1)

pub AllDistinct-remove : (p : ℕ) (ps : List ℕ) → AllDistinct ps → AllDistinct (remove p ps)
unfolding remove
AllDistinct-remove p [] h = tt
AllDistinct-remove p (x ∷ ps) h = ground (arith, mem-remove x p ps h.1, AllDistinct-remove p ps h.1)

pub AllBelow-remove : (p n : ℕ) (ps : List ℕ) → AllBelow n ps → AllBelow n (remove p ps)
unfolding remove
AllBelow-remove p n [] h = tt
AllBelow-remove p n (x ∷ ps) h = ground (arith, AllBelow-remove p n ps h.1)
