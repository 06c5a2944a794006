-- ===== src/Wire/Queue/Tickets.antt =====
-- Which thread of common/QueuedPacketHandler.cpp holds which ticket, in every run from the start.
use shared_encryption.Base.{
  ℕ, suc, ◌+◌, ◌≤◌, ◌<◌, ◌≡◌, List, [], ◌∷◌, ◌++◌, ◌==◌, if◌then◌else◌, Bool-cases, inl, inr, arith,
}
use shared_encryption.Wire.Queue.{
  Queue, new_queue, only, without, take_ticket, serve_next, wake, wait_queue, test_stop, send,
  stop_queue, Step, requests, serves, wakes, tests_stop, sends, stops, Steps, done, then_step,
  Absent, PassedOver, Steps-PassedOver,
}

module _ {R : Type 0} where
  -- How many threads of a list have the ticket.
  unfoldable pub holders : ℕ → List (ℕ × R) → ℕ
  holders t [] = 0
  holders t (w ∷ ws) = let n = holders t ws in if w.0 == t then suc n else n

  holders-append :
      (t : ℕ) (xs ys : List (ℕ × R)) → holders t (xs ++ ys) ≡ holders t xs + holders t ys
  unfolding holders
  holders-append t [] ys = omega arith
  holders-append t (x ∷ xs) ys = ground (arith, holders-append t xs ys)

  holders-only :
      (t u : ℕ) (ws : List (ℕ × R)) → holders t (only u ws) ≡ (if u == t then holders t ws else 0)
  unfolding holders only
  holders-only t u [] = ground arith
  holders-only t u (w ∷ ws) = ground (arith, holders-only t u ws)

  holders-without :
      (t u : ℕ) (ws : List (ℕ × R))
      → holders t (without u ws) ≡ (if u == t then 0 else holders t ws)
  unfolding holders without
  holders-without t u [] = ground arith
  holders-without t u (w ∷ ws) = ground (arith, holders-without t u ws)

  Absent-holders : (t : ℕ) (ws : List (ℕ × R)) → holders t ws ≡ 0 → Absent t ws
  unfolding holders
  Absent-holders t [] h = tt
  Absent-holders t (w ∷ ws) h = elim (Bool-cases (w.0 == t)) [
    | inl e ↦ absurd (ground (arith, h, e))
    | inr e ↦ ((λ same. ground (arith, e, same)), Absent-holders t ws (ground (arith, h, e)))
  ]

  -- Wherever they are.
  total : ℕ → Queue R → ℕ
  total t q = holders t q.waiting + holders t q.released + holders t q.sending + holders t q.sent

  -- Nobody has a ticket that another has, or one that was not given out.
  record Ticketed (q : Queue R) : Type 0 where
    pub at_most_one : (t : ℕ) → total t q ≤ 1
    pub none_yet : (t : ℕ) → q.next_ticket ≤ t → total t q ≡ 0

  new_queue-Ticketed : Ticketed new_queue
  unfolding total holders
  new_queue-Ticketed = record { at_most_one = λ t. omega arith; none_yet = λ t h. omega arith }

  take_ticket-Ticketed : (packet : R) (q : Queue R) → Ticketed q → Ticketed (take_ticket packet q)
  unfolding take_ticket total holders
  take_ticket-Ticketed packet q v = record {
    at_most_one = λ t. ground (
      arith,
      v.at_most_one t,
      v.none_yet t,
      holders-append t q.waiting ((q.next_ticket, packet) ∷ []),
    );
    none_yet = λ t h.
        ground (arith, h, v.none_yet t, holders-append t q.waiting ((q.next_ticket, packet) ∷ []));
  }

  -- Threads that go on or end make nobody a holder.
  no_more :
      (q q' : Queue R)
      → q'.next_ticket ≡ q.next_ticket
      → ((t : ℕ) → total t q' ≤ total t q)
      → Ticketed q
      → Ticketed q'
  no_more q q' same fewer v = record {
    at_most_one = λ t. omega (arith, fewer t, v.at_most_one t);
    none_yet =
        λ t h. let before = v.none_yet t (omega (arith, h, same)) in omega (arith, fewer t, before);
  }

  total-wake : (u t : ℕ) (q : Queue R) → total t (wake u q) ≤ total t q
  unfolding total wake
  total-wake u t q = ground (
    arith,
    holders-append t q.released (only u q.waiting),
    holders-only t u q.waiting,
    holders-without t u q.waiting,
  )

  next_ticket-wake : (u : ℕ) (q : Queue R) → (wake u q).next_ticket ≡ q.next_ticket
  unfolding wake
  next_ticket-wake u q = ground arith

  wake-Ticketed : (u : ℕ) (q : Queue R) → Ticketed q → Ticketed (wake u q)
  wake-Ticketed u q v = no_more q (wake u q) (next_ticket-wake u q) (λ t. total-wake u t q) v

  total-test_stop : (u t : ℕ) (q : Queue R) → total t (test_stop u q) ≤ total t q
  unfolding total test_stop
  total-test_stop u t q = ground (
    arith,
    holders-append t q.sending (only u q.released),
    holders-only t u q.released,
    holders-without t u q.released,
  )

  total-send : (u t : ℕ) (q : Queue R) → total t (send u q) ≤ total t q
  unfolding total send
  total-send u t q = ground (
    arith,
    holders-append t q.sent (only u q.sending),
    holders-only t u q.sending,
    holders-without t u q.sending,
  )

  total-serve_next : (t : ℕ) (q : Queue R) → total t (serve_next q) ≤ total t q
  unfolding total serve_next
  total-serve_next t q = ground arith

  Step-Ticketed : (q q' : Queue R) → Step q q' → Ticketed q → Ticketed q'
  unfolding wait_queue test_stop send serve_next stop_queue total
  Step-Ticketed q _ (requests packet) v =
      wake-Ticketed q.next_ticket (take_ticket packet q) (take_ticket-Ticketed packet q v)
  Step-Ticketed q _ serves v = no_more q (serve_next q) (ground arith) (λ t. total-serve_next t q) v
  Step-Ticketed q _ (wakes u) v = wake-Ticketed u q v
  Step-Ticketed q _ (tests_stop u) v =
      no_more q (test_stop u q) (ground arith) (λ t. total-test_stop u t q) v
  Step-Ticketed q _ (sends u) v = no_more q (send u q) (ground arith) (λ t. total-send u t q) v
  Step-Ticketed q _ stops v = no_more q (stop_queue q) (ground arith) (λ t. omega arith) v

  Steps-Ticketed : (q q' : Queue R) → Steps q q' → Ticketed q → Ticketed q'
  Steps-Ticketed q _ done v = v
  Steps-Ticketed q _ (then_step {q' = r} {q'' = r'} rs r_step) v =
      Step-Ticketed r r' r_step (Steps-Ticketed q r rs v)

  waiting-PassedOver :
      (t : ℕ) (q : Queue R)
      → Ticketed q
      → 1 ≤ holders t q.waiting
      → t < q.ticket_being_served
      → PassedOver t q
  unfolding total
  waiting-PassedOver t q v h late =
      let one = v.at_most_one t in
      record {
        passed = late;
        not_released = inr (Absent-holders t q.released (omega (arith, h, one)));
        not_sending = Absent-holders t q.sending (omega (arith, h, one));
        unsent = Absent-holders t q.sent (omega (arith, h, one));
      }

  -- In a run from the start, if a thread is still in `wait_queue` when the queue has gone past its
  -- ticket, then its packet is not sent, whatever steps follow, those included in which the thread
  -- wakes up or the queue is stopped.
  pub passed_over_unsent :
      (t : ℕ) (q q' : Queue R)
      → Steps new_queue q
      → 1 ≤ holders t q.waiting
      → t < q.ticket_being_served
      → Steps q q'
      → Absent t q'.sent
  passed_over_unsent t q q' start h late later =
      let v = Steps-Ticketed new_queue q start new_queue-Ticketed in
      let over = Steps-PassedOver t q q' later (waiting-PassedOver t q v h late) in over.unsent
