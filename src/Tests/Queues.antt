-- ===== src/Tests/Queues.antt =====
-- An interrupt queue whose ring wraps around: three bytes from position 62 on.
use tweaking_pintos.Prelude.{◌≡◌, true, [], ◌∷◌, some, arith, if◌then◌else◌, ltb}
use tweaking_pintos.Intq.{Intq}
use tweaking_pintos.Intq.Contents.{contents, IsQueue}
use tweaking_pintos.Intq.Traffic.{put_all, get_all, intq_roundtrip}

-- A thread at 500 waits for room.
abbrev queue : Intq
queue = record {
  not_full = 500;
  not_empty = 0;
  buf = λ i. if ltb i 10 then 7 else 8;
  head = 1;
  tail = 62;
}

queue-IsQueue : IsQueue queue
queue-IsQueue = record { head = omega arith; tail = omega arith }

-- Three bytes stand at the positions 62, 63 and 0, and three more follow.
intq_roundtrip_example :
    (q1 q2 : Intq) × (put_all true 600 (1 ∷ 2 ∷ 3 ∷ []) queue ≡ some q1)
    × (get_all true 600 6 q1 ≡ some (8 ∷ 8 ∷ 7 ∷ 1 ∷ 2 ∷ 3 ∷ [], q2))
    × (contents q2 ≡ [])
intq_roundtrip_example = intq_roundtrip true 600 (1 ∷ 2 ∷ 3 ∷ []) queue queue-IsQueue (omega arith)
