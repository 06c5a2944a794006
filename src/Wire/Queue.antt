-- ===== src/Wire/Queue.antt =====
-- common/QueuedPacketHandler.cpp: packets wait in a queue of tickets. What the threads do under a
-- lock, or by one read of `_sync.stop`, is a step, and the steps interleave: a thread comes with a
-- packet and takes a ticket; the queue's own thread goes on to the next ticket; a waiting thread
-- tests its condition under `mtxQueue` and leaves `wait_queue`; it then looks at `_sync.stop`; and
-- it sends its packet under `mtxUnderlying`. The delay and what happens when the queue is empty
-- are left out, and fewer than 2 ^ 64 tickets are taken. `R` is the type of packets.
pub mod Tickets
use shared_encryption.Base.{
  ℕ, suc, ◌<◌, ◌≡◌, ◌≢◌, ◌⊎◌, refl, Bool, true, false, ◌||◌, List, [], ◌∷◌, ◌++◌, ◌==◌, ltb,
  if◌then◌else◌, All, All-append, Bool-cases, inl, inr, arith,
}

-- `_nextTicket`, `_ticketBeingServed` and `_sync.stop`; the tickets of the threads with their
-- packets, by how far they are: in `wait_queue`, after it, after the test of `_sync.stop`; and what
-- the underlying handler was given, in order.
pub record Queue (R : Type 0) : Type 0 where
  pub next_ticket : ℕ
  pub ticket_being_served : ℕ
  pub stop : Bool
  pub waiting : List (ℕ × R)
  pub released : List (ℕ × R)
  pub sending : List (ℕ × R)
  pub sent : List (ℕ × R)

other_ticket : (t u n : ℕ) → t < n → (u == n) ≡ true → u ≢ t
other_ticket t u n h e = λ w. ground (arith, h, e, w)

or_right : (a b : Bool) → a ≡ false → (a || b) ≡ true → b ≡ true
or_right true b f e = absurd (cc f)
or_right false b f e = e

module _ {R : Type 0} where
  abbrev pub new_queue : Queue R
  new_queue = record {
    next_ticket = 0;
    ticket_being_served = 0;
    stop = false;
    waiting = [];
    released = [];
    sending = [];
    sent = [];
  }

  -- The thread with a ticket, and the other threads.
  unfoldable pub only : ℕ → List (ℕ × R) → List (ℕ × R)
  only ticket [] = []
  only ticket (w ∷ ws) = let others = only ticket ws in if w.0 == ticket then w ∷ others else others

  unfoldable pub without : ℕ → List (ℕ × R) → List (ℕ × R)
  without ticket [] = []
  without ticket (w ∷ ws) =
      let others = without ticket ws in if w.0 == ticket then others else w ∷ others

  -- `_nextTicket++`, for a thread that comes with a packet.
  unfoldable pub take_ticket : R → Queue R → Queue R
  take_ticket packet q = record q {
    next_ticket = suc q.next_ticket;
    waiting = q.waiting ++ (q.next_ticket, packet) ∷ [];
  }

  -- A round of `queue_thread`.
  unfoldable pub serve_next : Queue R → Queue R
  serve_next q =
      if ltb q.ticket_being_served q.next_ticket
      then record q { ticket_being_served = suc q.ticket_being_served }
      else q

  -- The thread with this ticket tests its condition, and leaves `wait_queue` if it holds.
  unfoldable pub wake : ℕ → Queue R → Queue R
  wake ticket q =
      if q.stop || (ticket == q.ticket_being_served)
      then record q {
        waiting = without ticket q.waiting;
        released = q.released ++ only ticket q.waiting;
      }
      else q

  -- A thread takes a ticket and tests its condition under the same lock.
  unfoldable pub wait_queue : R → Queue R → Queue R
  wait_queue packet q = wake q.next_ticket (take_ticket packet q)

  -- `if (_sync.stop) return;`
  unfoldable pub test_stop : ℕ → Queue R → Queue R
  test_stop ticket q = record q {
    released = without ticket q.released;
    sending = if q.stop then q.sending else q.sending ++ only ticket q.released;
  }

  -- `_underlying->send_request_data(request)`, or of a response
  unfoldable pub send : ℕ → Queue R → Queue R
  send ticket q = record q {
    sending = without ticket q.sending;
    sent = q.sent ++ only ticket q.sending;
  }

  -- The destructor.
  unfoldable pub stop_queue : Queue R → Queue R
  stop_queue q = record q { stop = true }

  -- What changes the queue. A step of a thread that is not where the step begins changes nothing.
  pub data Step (q : Queue R) : Queue R → Type 0 where
    requests : (packet : R) → Step q (wait_queue packet q)
    serves : Step q (serve_next q)
    wakes : (ticket : ℕ) → Step q (wake ticket q)
    tests_stop : (ticket : ℕ) → Step q (test_stop ticket q)
    sends : (ticket : ℕ) → Step q (send ticket q)
    stops : Step q (stop_queue q)

  pub data Steps (q : Queue R) : Queue R → Type 0 where
    done : Steps q q
    then_step : {q' q'' : Queue R} → Steps q q' → Step q' q'' → Steps q q''

  -- No thread in the list has the ticket.
  abbrev pub Absent : ℕ → List (ℕ × R) → Type 0
  Absent ticket ws = All (λ w. w.0 ≢ ticket) ws

  -- The queue went past the ticket, and its packet was not sent. Its thread may be in `wait_queue`;
  -- it has left it at most because the queue was stopped.
  pub record PassedOver (ticket : ℕ) (q : Queue R) : Type 0 where
    pub passed : ticket < q.ticket_being_served
    pub not_released : (q.stop ≡ true) ⊎ Absent ticket q.released
    pub not_sending : Absent ticket q.sending
    pub unsent : Absent ticket q.sent

  Absent-only : (ticket u : ℕ) (ws : List (ℕ × R)) → Absent ticket ws → Absent ticket (only u ws)
  unfolding only
  Absent-only ticket u [] h = tt
  Absent-only ticket u (w ∷ ws) h = elim (Bool-cases (w.0 == u)) [
    | inl e ↦ rw e (h.0, Absent-only ticket u ws h.1)
    | inr e ↦ rw e (Absent-only ticket u ws h.1)
  ]

  Absent-without :
      (ticket u : ℕ) (ws : List (ℕ × R)) → Absent ticket ws → Absent ticket (without u ws)
  unfolding without
  Absent-without ticket u [] h = tt
  Absent-without ticket u (w ∷ ws) h = elim (Bool-cases (w.0 == u)) [
    | inl e ↦ rw e (Absent-without ticket u ws h.1)
    | inr e ↦ rw e (h.0, Absent-without ticket u ws h.1)
  ]

  -- The thread with one ticket has no other.
  only-Absent : (ticket u : ℕ) (ws : List (ℕ × R)) → u ≢ ticket → Absent ticket (only u ws)
  unfolding only
  only-Absent ticket u [] ne = tt
  only-Absent ticket u (w ∷ ws) ne = elim (Bool-cases (w.0 == u)) [
    | inl e ↦ rw e ((λ same. ne (ground (arith, e, same))), only-Absent ticket u ws ne)
    | inr e ↦ rw e (only-Absent ticket u ws ne)
  ]

  Absent-append :
      (ticket : ℕ) (xs ys : List (ℕ × R))
      → Absent ticket xs
      → Absent ticket ys
      → Absent ticket (xs ++ ys)
  Absent-append ticket xs ys hx hy = All-append (λ w. w.0 ≢ ticket) xs ys hx hy

  released_by_turn :
      (ticket u : ℕ) (q : Queue R)
      → u ≢ ticket
      → (q.stop ≡ true) ⊎ Absent ticket q.released
      → (q.stop ≡ true) ⊎ Absent ticket (q.released ++ only u q.waiting)
  released_by_turn ticket u q ne (inl stopped) = inl stopped
  released_by_turn ticket u q ne (inr absent) = inr (
      Absent-append ticket q.released (only u q.waiting) absent (only-Absent ticket u q.waiting ne))

  released_when_served :
      (ticket u : ℕ) (q : Queue R)
      → (q.stop || (u == q.ticket_being_served)) ≡ true
      → PassedOver ticket q
      → (q.stop ≡ true) ⊎ Absent ticket (q.released ++ only u q.waiting)
  released_when_served ticket u q e p = elim (Bool-cases q.stop) [
    | inl stopped ↦ inl stopped
    | inr running ↦
        let turn = or_right q.stop (u == q.ticket_being_served) running e in
        released_by_turn ticket u q (other_ticket ticket u q.ticket_being_served p.passed turn)
          p.not_released
  ]

  after_test :
      (ticket u : ℕ) (q : Queue R) (goes_on : Bool)
      → (q.stop || (u == q.ticket_being_served)) ≡ goes_on
      → PassedOver ticket q
      → PassedOver ticket (
          if goes_on
          then record q { waiting = without u q.waiting; released = q.released ++ only u q.waiting }
          else q)
  after_test ticket u q true e p = record {
    passed = p.passed;
    not_released = released_when_served ticket u q e p;
    not_sending = p.not_sending;
    unsent = p.unsent;
  }
  after_test ticket u q false e p = p

  wake-PassedOver :
      (ticket u : ℕ) (q : Queue R) → PassedOver ticket q → PassedOver ticket (wake u q)
  unfolding wake
  wake-PassedOver ticket u q p =
      after_test ticket u q (q.stop || (u == q.ticket_being_served)) refl p

  take_ticket-PassedOver :
      (ticket : ℕ) (packet : R) (q : Queue R)
      → PassedOver ticket q
      → PassedOver ticket (take_ticket packet q)
  unfolding take_ticket
  take_ticket-PassedOver ticket packet q p = record {
    passed = p.passed;
    not_released = p.not_released;
    not_sending = p.not_sending;
    unsent = p.unsent;
  }

  still_not_released :
      (ticket u : ℕ) (q : Queue R)
      → (q.stop ≡ true) ⊎ Absent ticket q.released
      → (q.stop ≡ true) ⊎ Absent ticket (without u q.released)
  still_not_released ticket u q (inl stopped) = inl stopped
  still_not_released ticket u q (inr absent) = inr (Absent-without ticket u q.released absent)

  released_while_running :
      (ticket : ℕ) (q : Queue R)
      → q.stop ≡ false
      → (q.stop ≡ true) ⊎ Absent ticket q.released
      → Absent ticket q.released
  released_while_running ticket q running (inl stopped) = absurd (cc (running, stopped))
  released_while_running ticket q running (inr absent) = absent

  test_stop-sending :
      (ticket u : ℕ) (q : Queue R)
      → PassedOver ticket q
      → Absent ticket (if q.stop then q.sending else q.sending ++ only u q.released)
  test_stop-sending ticket u q p = elim (Bool-cases q.stop) [
    | inl stopped ↦ rw stopped p.not_sending
    | inr running ↦ rw running (
        Absent-append ticket q.sending (only u q.released) p.not_sending (
          Absent-only ticket u q.released (released_while_running ticket q running p.not_released)))
  ]

  Step-PassedOver :
      (ticket : ℕ) (q q' : Queue R) → Step q q' → PassedOver ticket q → PassedOver ticket q'
  unfolding serve_next wait_queue test_stop send stop_queue
  Step-PassedOver ticket q _ (requests packet) p =
      wake-PassedOver ticket q.next_ticket (take_ticket packet q)
        (take_ticket-PassedOver ticket packet q p)
  Step-PassedOver ticket q _ serves p =
      elim (Bool-cases (ltb q.ticket_being_served q.next_ticket)) [
        | inl e ↦ rw e (record {
          passed = ground (arith, p.passed);
          not_released = p.not_released;
          not_sending = p.not_sending;
          unsent = p.unsent;
        })
        | inr e ↦ rw e p
      ]
  Step-PassedOver ticket q _ (wakes u) p = wake-PassedOver ticket u q p
  Step-PassedOver ticket q _ (tests_stop u) p = record {
    passed = p.passed;
    not_released = still_not_released ticket u q p.not_released;
    not_sending = test_stop-sending ticket u q p;
    unsent = p.unsent;
  }
  Step-PassedOver ticket q _ (sends u) p = record {
    passed = p.passed;
    not_released = p.not_released;
    not_sending = Absent-without ticket u q.sending p.not_sending;
    unsent =
        Absent-append ticket q.sent (only u q.sending) p.unsent
          (Absent-only ticket u q.sending p.not_sending);
  }
  Step-PassedOver ticket q _ stops p = record {
    passed = p.passed;
    not_released = inl refl;
    not_sending = p.not_sending;
    unsent = p.unsent;
  }

  -- If the queue went past a ticket before its thread left `wait_queue` (or the thread left it only
  -- because the queue was stopped, and is not about to send), then its packet is not sent by any
  -- sequence of steps from there, one in which the thread wakes up or the queue is stopped included.
  pub Steps-PassedOver :
      (ticket : ℕ) (q q' : Queue R) → Steps q q' → PassedOver ticket q → PassedOver ticket q'
  Steps-PassedOver ticket q _ done p = p
  Steps-PassedOver ticket q _ (then_step {q' = r} {q'' = r'} rs r_step) p =
      Step-PassedOver ticket r r' r_step (Steps-PassedOver ticket q r rs p)
