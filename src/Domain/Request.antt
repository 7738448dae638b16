-- ===== src/Domain/Request.antt =====
-- src/domain/movie-reservations/reservation-request.ts, reservation-request-status.ts,
-- reservation-request-transitions.ts and reservation-request-sequence.ts.
pub mod Laws
use movie_reservation_servic.Prelude.{
  ℕ, ◌-◌, ◌^◌, Bool, false, not, ◌||◌, List, [], ◌∷◌, JsString, Result, ok, err, length, ltb, leb,
  ◌==◌, if◌then◌else◌,
}
use movie_reservation_servic.Errors.{
  must_include_seat, cannot_include_duplicate_seats, cannot_transition,
  sequence_must_be_positive_safe_integer,
}
use movie_reservation_servic.Domain.Seats.{set_of}

pub data ReservationRequestStatus : Type 0 where
  requested processing confirmed rejected failed : ReservationRequestStatus

pub record ReservationRequest : Type 0 where
  pub id : JsString
  pub movie_provider_id : JsString
  pub screening_id : JsString
  pub seat_ids : List JsString
  pub requested_by_user_id : JsString
  pub status : ReservationRequestStatus

pub record CreateReservationRequestInput : Type 0 where
  pub id : JsString
  pub movie_provider_id : JsString
  pub screening_id : JsString
  pub seat_ids : List JsString
  pub requested_by_user_id : JsString

unfoldable pub create_reservation_request :
    CreateReservationRequestInput → Result ReservationRequest
unfolding set_of
create_reservation_request input =
    if length input.seat_ids == 0
    then err must_include_seat
    else if not (length (set_of input.seat_ids) == length input.seat_ids)
    then err cannot_include_duplicate_seats
    else ok (record {
      id = input.id;
      movie_provider_id = input.movie_provider_id;
      screening_id = input.screening_id;
      seat_ids = input.seat_ids;
      requested_by_user_id = input.requested_by_user_id;
      status = ReservationRequestStatus.requested;
    })

abbrev status_code : ReservationRequestStatus → ℕ
status_code requested = 0
status_code processing = 1
status_code confirmed = 2
status_code rejected = 3
status_code failed = 4

-- `===` on statuses.
abbrev pub same_status : ReservationRequestStatus → ReservationRequestStatus → Bool
same_status a b = status_code a == status_code b

abbrev includes_status : List ReservationRequestStatus → ReservationRequestStatus → Bool
includes_status [] s = false
includes_status (t ∷ ts) s = same_status t s || includes_status ts s

-- `transitionReservationRequest`
transition :
    ReservationRequest
    → ReservationRequestStatus
    → List ReservationRequestStatus
    → Result ReservationRequest
transition request next_status allowed =
    if not (includes_status allowed request.status)
    then err (cannot_transition request.id)
    else ok (record request { status = next_status })

unfoldable pub start_processing : ReservationRequest → Result ReservationRequest
unfolding transition
start_processing request = transition request processing (requested ∷ [])

unfoldable pub confirm_request : ReservationRequest → Result ReservationRequest
unfolding transition
confirm_request request = transition request confirmed (processing ∷ [])

unfoldable pub reject_request : ReservationRequest → Result ReservationRequest
unfolding transition
reject_request request = transition request rejected (processing ∷ [])

unfoldable pub fail_request : ReservationRequest → Result ReservationRequest
unfolding transition
fail_request request = transition request failed (processing ∷ [])

-- `Number.MAX_SAFE_INTEGER`. Fractions, infinities and negative numbers, which the source refuses
-- too, are not numbers of the model.
abbrev pub max_safe_integer : ℕ
max_safe_integer = 2 ^ 53 - 1

unfoldable pub create_sequence : ℕ → Result ℕ
create_sequence value =
    if not (leb value max_safe_integer) || ltb value 1
    then err sequence_must_be_positive_safe_integer
    else ok value
