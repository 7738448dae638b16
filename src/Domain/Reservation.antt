-- ===== src/Domain/Reservation.antt =====
-- src/domain/movie-reservations/reservation.ts
use movie_reservation_servic.Prelude.{
  not, List, JsString, Result, ok, err, length, ◌==◌, if◌then◌else◌,
}
use movie_reservation_servic.Errors.{must_include_seat, cannot_include_duplicate_seats}
use movie_reservation_servic.Domain.Seats.{set_of}

pub record Reservation : Type 0 where
  pub id : JsString
  pub movie_provider_id : JsString
  pub reservation_request_id : JsString
  pub screening_id : JsString
  pub seat_ids : List JsString
  pub reserved_by_user_id : JsString
  pub confirmed_at : JsString

-- `CreateReservationInput` has the fields of `Reservation`.
unfoldable pub create_reservation : Reservation → Result Reservation
unfolding set_of
create_reservation input =
    if length input.seat_ids == 0
    then err must_include_seat
    else if not (length (set_of input.seat_ids) == length input.seat_ids)
    then err cannot_include_duplicate_seats
    else ok input
