-- ===== src/Tests/Queue.antt =====
-- The queue of packets, with three packets in it.
use shared_encryption.Base.{ℕ, ◌≡◌, refl, [], ◌∷◌, arith}
use shared_encryption.Wire.Queue.{
  Queue, new_queue, take_ticket, wait_queue, serve_next, wake, test_stop, send, only, without,
  Absent, Steps, done, then_step, requests, serves, wakes, tests_stop, sends,
}
use shared_encryption.Wire.Queue.Tickets.{holders, passed_over_unsent}

-- The packet 10 goes at once. 11 and 12 wait for their turns, and the turn of 11 passes before its
-- thread wakes up.
abbrev first_sent : Queue ℕ
first_sent = send 0 (test_stop 0 (wait_queue 10 new_queue))

abbrev too_late : Queue ℕ
too_late = serve_next (serve_next (wait_queue 12 (wait_queue 11 first_sent)))

to_first_sent : Steps new_queue first_sent
to_first_sent = then_step (then_step (then_step done (requests 10)) (tests_stop 0)) (sends 0)

to_too_late : Steps new_queue too_late
to_too_late =
    then_step (then_step (then_step (then_step to_first_sent (requests 11)) (requests 12)) serves)
      serves

-- Both threads wake up, and go on as far as they can.
abbrev both_awake : Queue ℕ
both_awake = send 1 (send 2 (test_stop 1 (test_stop 2 (wake 1 (wake 2 too_late)))))

to_both_awake : Steps too_late both_awake
to_both_awake =
    then_step
      (then_step
        (then_step (then_step (then_step (then_step done (wakes 2)) (wakes 1)) (tests_stop 2))
          (tests_stop 1))
        (sends 2))
      (sends 1)

sent_in_time : both_awake.sent ≡ (0, 10) ∷ (2, 12) ∷ []
unfolding serve_next wait_queue wake take_ticket test_stop send only without
sent_in_time = refl

passed_over_unsent_example : Absent 1 both_awake.sent
unfolding serve_next wait_queue wake take_ticket test_stop send only without holders
passed_over_unsent_example =
    passed_over_unsent 1 too_late both_awake to_too_late (omega arith) (omega arith) to_both_awake
