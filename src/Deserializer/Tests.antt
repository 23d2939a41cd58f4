-- ===== src/Deserializer/Tests.antt =====
-- The deserializer on short streams.
use wazo_libsccp.Common.{
  ℕ, zero, suc, ◌≡◌, ◌≤◌, ◌<◌, ◌+◌, refl, List, [], ◌∷◌, ◌++◌, some, arith, length, drop,
}
use wazo_libsccp.Deserializer.{
  Deserializer, Drained, nomsg, buf_size, max_total_len, read, read_full, pop, pop_all, receive,
  receive_all, load32, total_len,
}
use wazo_libsccp.Deserializer.Bounds.{IsValid, pending}
use wazo_libsccp.Deserializer.Frame.{Answers, frame, incomplete, bad, message, pop-Answers}
use wazo_libsccp.Deserializer.Stream.{stops, takes, AllFrames, IsFrame, frame-joined}
use wazo_libsccp.Deserializer.Drain.{Drains, overlays, pop_all-Drains}
use wazo_libsccp.Deserializer.Receive.{AllBegin, Receives, receive_all_frames, receive_fills}

zeros : ℕ → List ℕ
zeros zero = []
zeros (suc n) = 0 ∷ zeros n

length-zeros : (n : ℕ) → length (zeros n) ≡ n
unfolding zeros
length-zeros zero = refl
length-zeros (suc n) = omega (arith, length-zeros n)

fresh : Deserializer
fresh = record { msg = zeros max_total_len; start = 0; end = 0; buf = zeros buf_size }

fresh-IsValid : IsValid fresh
unfolding fresh
fresh-IsValid = record {
  ordered = omega arith;
  fits = omega arith;
  storage = length-zeros buf_size;
  slot = length-zeros max_total_len;
}

-- A KEEP_ALIVE message, and an ONHOOK message with two words of data.
abbrev keep_alive : List ℕ
keep_alive = 4 ∷ 0 ∷ 0 ∷ 0 ∷ 0 ∷ 0 ∷ 0 ∷ 0 ∷ 0 ∷ 0 ∷ 0 ∷ 0 ∷ []

abbrev onhook : List ℕ
onhook = 12 ∷ 0 ∷ 0 ∷ 0 ∷ 0 ∷ 0 ∷ 0 ∷ 0 ∷ 7 ∷ 0 ∷ 0 ∷ 0 ∷ 1 ∷ 0 ∷ 0 ∷ 0 ∷ 9 ∷ 0 ∷ 0 ∷ 0 ∷ []

-- A length word that wraps when 8 is added.
abbrev huge : List ℕ
huge = 252 ∷ 255 ∷ 255 ∷ 255 ∷ 0 ∷ 0 ∷ 0 ∷ 0 ∷ 0 ∷ 0 ∷ 0 ∷ 0 ∷ []

frame-keep_alive : frame (keep_alive ++ (1 ∷ [])) ≡ message keep_alive (1 ∷ [])
unfolding frame load32
frame-keep_alive = refl

frame-huge : frame huge ≡ bad
unfolding frame load32
frame-huge = refl

keep_alive-IsFrame : IsFrame keep_alive
unfolding load32
keep_alive-IsFrame = record { has_header = omega arith; has_length = refl }

onhook-IsFrame : IsFrame onhook
unfolding load32
onhook-IsFrame = record { has_header = omega arith; has_length = refl }

both-AllFrames : AllFrames (keep_alive ∷ onhook ∷ [])
both-AllFrames = (keep_alive-IsFrame, (onhook-IsFrame, tt))

empty_incomplete : frame (4 ∷ []) ≡ incomplete
unfolding frame load32
empty_incomplete = refl

pop-Answers_example : Answers fresh (frame (pending fresh)) (pop fresh)
pop-Answers_example = pop-Answers fresh fresh-IsValid

-- The two messages and a byte, in three pieces.
receive_all_frames_example :
    (r : Drained) × (receive_all 3 fresh (
        (4 ∷ 0 ∷ [])
        ∷ (0 ∷ 0 ∷ 0 ∷ 0 ∷ 0 ∷ 0 ∷ 0 ∷ 0 ∷ 0 ∷ 0 ∷ 12 ∷ [])
        ∷ (drop 1 onhook ++ (4 ∷ []))
        ∷ [])
      ≡ some r)
    × Receives fresh (keep_alive ∷ onhook ∷ []) (4 ∷ []) r
    × AllBegin (keep_alive ∷ onhook ∷ []) r.msgs
unfolding fresh
receive_all_frames_example =
    receive_all_frames (keep_alive ∷ onhook ∷ []) (4 ∷ [])
      ((4 ∷ 0 ∷ [])
        ∷ (0 ∷ 0 ∷ 0 ∷ 0 ∷ 0 ∷ 0 ∷ 0 ∷ 0 ∷ 0 ∷ 0 ∷ 12 ∷ [])
        ∷ (drop 1 onhook ++ (4 ∷ []))
        ∷ [])
      fresh both-AllFrames empty_incomplete fresh-IsValid refl (omega arith) refl (omega arith)

pop_all-Drains_example : (r : Drained) × (pop_all 1 fresh ≡ some r) × Drains fresh [] nomsg [] r
unfolding fresh frame
pop_all-Drains_example =
    pop_all-Drains (stops {xs = []} refl) 1 fresh (omega arith) fresh-IsValid refl

-- The front of a message that announces 65535 bytes.
abbrev long_front : List ℕ
long_front = 255 ∷ 255 ∷ 0 ∷ 0 ∷ zeros 3056

incomplete_of_lt : (xs : List ℕ) → length xs < total_len (load32 xs) → frame xs ≡ incomplete
unfolding frame
incomplete_of_lt xs h = ground arith

front_incomplete : frame long_front ≡ incomplete
unfolding load32
front_incomplete = incomplete_of_lt long_front (omega (arith, length-zeros 3056))

receive_fills_example :
    (r : Drained) × (receive 2 fresh (keep_alive ++ long_front) ≡ some r)
    × (r.msgs ≡ overlays (keep_alive ∷ []) fresh.msg)
    × (read r.state (some (1 ∷ [])) ≡ (read_full, r.state))
    × (length (pending r.state) + 1 ≤ buf_size)
unfolding fresh
receive_fills_example =
    receive_fills fresh (keep_alive ++ long_front) keep_alive [] long_front (some (1 ∷ []))
      fresh-IsValid (omega arith) (omega (arith, length-zeros 3056))
      (takes (frame-joined keep_alive long_front keep_alive-IsFrame) (stops front_incomplete))
      (λ e. cc)
