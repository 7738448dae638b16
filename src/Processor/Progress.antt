-- ===== src/Processor/Progress.antt =====
-- What the processor does with a claimed request whose seats are free.
use movie_reservation_servic.Prelude.{
  ◌+◌, ◌++◌, List, ◌∷◌, ◌≡◌, ◌≢◌, refl, ap, false, none, [], JsString, ok, arith, Bool-cases, inl,
  inr,
}
use movie_reservation_servic.Prelude.JsMap.{has, values}
use movie_reservation_servic.Domain.Seats.{IsDistinct}
use movie_reservation_servic.Domain.Request.{ReservationRequest, confirmed}
use movie_reservation_servic.Domain.Request.Laws.{create_reservation_iff}
use movie_reservation_servic.Domain.Reservation.{Reservation, create_reservation}
use movie_reservation_servic.Work.{ClaimedReservationRequest, ConfirmedAttempt}
use movie_reservation_servic.Memory.Store.{WorkMetadata}
use movie_reservation_servic.Memory.Settle.{first_conflict, find_conflict}
use movie_reservation_servic.Memory.Owned.{IsOwned, with_status, confirm_claimed_free}
use movie_reservation_servic.Processor.World
use movie_reservation_servic.Processor.World.{
  World, Ports, Options, Event, ProcessingInput, ProcessingResult, claimed, on_claimed,
  attributes_of,
}
use movie_reservation_servic.Processor.Steps.{
  tell, now, next_reservation_id, record_outcome, confirm_work_item, throw_if_blocked,
  settle_work_item, report_terminal, process_claimed, reservation_input, confirmed_attempt,
}

module _ (ports : Ports) (options : Options) (c : ClaimedReservationRequest)
    (started_at : JsString) where
  -- The reservation and the attempt that a confirmation in this world writes.
  abbrev pub reservation_in : World → Reservation
  reservation_in w =
      reservation_input ports options c (ports.generate_reservation_id w.id_calls)
        (ports.now_iso_string w.clock_calls)

  abbrev pub attempt_in : World → ConfirmedAttempt
  attempt_in w =
      confirmed_attempt ports options c started_at (ports.now_iso_string (w.clock_calls + 1))
        (reservation_in w)

  -- The seats are free, and the request is the worker's to confirm.
  pub record IsConfirmable (w : World) (r : ReservationRequest) (m : WorkMetadata) : Type 0 where
    pub owned : IsOwned w.store c r m
    pub named : r.id ≡ c.reservation_request.id
    pub allowed : ports.should_fail c.reservation_request.id ≡ false
    pub some_seat : c.reservation_request.seat_ids ≢ []
    pub distinct : IsDistinct c.reservation_request.seat_ids
    pub fresh : has w.store.reservations (ports.generate_reservation_id w.id_calls) ≡ false
    pub free :
        first_conflict c.reservation_request.screening_id c.reservation_request.seat_ids
          (values w.store.reservations)
        ≡ none

  module _ (w : World) (r : ReservationRequest) (m : WorkMetadata) (h : IsConfirmable w r m) where
    made : create_reservation (reservation_in w) ≡ ok (reservation_in w)
    made =
        (create_reservation_iff (reservation_in w) (reservation_in w)).1
          (h.some_seat, h.distinct, refl)

    settle_work_item-confirms :
        (settle_work_item ports options c started_at w).0
        ≡ ok (
            World.ProcessingResult.confirmed
              (attempt_in w)
              (with_status r confirmed)
              (reservation_in w))
    unfolding settle_work_item find_conflict throw_if_blocked confirm_work_item now
        next_reservation_id
    settle_work_item-confirms = ground (
      arith,
      h.allowed,
      h.free,
      made,
      confirm_claimed_free c w.store r m h.owned h.named (reservation_in w) (attempt_in w) h.fresh
          h.free,
    )

    -- The same, wherever the log stands.
    logged-IsConfirmable : (log : List Event) → IsConfirmable (record w { log = log }) r m
    logged-IsConfirmable log = record {
      owned = h.owned;
      named = h.named;
      allowed = h.allowed;
      some_seat = h.some_seat;
      distinct = h.distinct;
      fresh = h.fresh;
      free = h.free;
    }

  tell-quiet :
      (e : Event) (w : World)
      → ports.observe e ≡ none
      → tell ports options e w ≡ (ok tt, record w { log = w.log ++ e ∷ [] })
  unfolding tell
  tell-quiet e w quiet = ground arith

  record_outcome-quiet :
      (result : ProcessingResult) (w : World)
      → ((e : Event) → ports.observe e ≡ none)
      → (record_outcome ports options result c w).0 ≡ ok tt
  unfolding record_outcome
  record_outcome-quiet result w quiet = ap (λ x. x.0) (tell-quiet _ w (quiet _))

  report_terminal-quiet :
      (result : ProcessingResult) (w : World)
      → ((e : Event) → ports.observe e ≡ none)
      → (report_terminal ports options c result w).0 ≡ ok result
  unfolding report_terminal
  report_terminal-quiet result w quiet = ground (arith, record_outcome-quiet result w quiet)

  -- Where observability does not throw, an owned request that the failure policy allows, whose seats
  -- are distinct, at least one, and in no stored reservation of the screening, and whose new
  -- reservation id is free, is reported as CONFIRMED, with its reservation.
  pub process_claimed-confirms :
      (input : ProcessingInput) (w : World) (r : ReservationRequest) (m : WorkMetadata)
      → IsConfirmable w r m
      → ((e : Event) → ports.observe e ≡ none)
      → (process_claimed ports options c input started_at w).0
        ≡ ok (
            World.ProcessingResult.confirmed
              (attempt_in w)
              (with_status r confirmed)
              (reservation_in w))
  unfolding process_claimed
  process_claimed-confirms input w r m h quiet =
      let result =
        World.ProcessingResult.confirmed (attempt_in w) (with_status r confirmed)
          (reservation_in w) in
      let w1 : World = record w { log = w.log ++ claimed (attributes_of c) ∷ [] } in
      let w2 : World = record w1 { log = w1.log ++ on_claimed c ∷ [] } in
      let first = tell-quiet (claimed (attributes_of c)) w (quiet (claimed (attributes_of c))) in
      elim (Bool-cases input.has_on_claimed) [
        | inl told ↦ ground (
          arith,
          first,
          tell-quiet (on_claimed c) w1 (quiet (on_claimed c)),
          settle_work_item-confirms w2 r m (logged-IsConfirmable w r m h w2.log),
          report_terminal-quiet result (settle_work_item ports options c started_at w2).1 quiet,
        )
        | inr untold ↦ ground (
          arith,
          first,
          settle_work_item-confirms w1 r m (logged-IsConfirmable w r m h w1.log),
          report_terminal-quiet result (settle_work_item ports options c started_at w1).1 quiet,
        )
      ]
