-- ===== src/Tests/Values.antt =====
-- Identifiers, requests and reservations at concrete inputs.
use movie_reservation_servic.Prelude.{◌≡◌, refl, [], ◌∷◌, JsString, text, ok}
use movie_reservation_servic.Domain.Ids.{create_uuid_id}
use movie_reservation_servic.Domain.Ids.Laws.{IsCanonical, create_uuid_id-IsCanonical}
use movie_reservation_servic.Domain.Request.{
  processing, ReservationRequest, CreateReservationRequestInput,
}
use movie_reservation_servic.Tests.Fixtures.{request_for}

abbrev lower_id : JsString
lower_id = text "550e8400-e29b-41d4-a716-446655440abc"

abbrev upper_id : JsString
upper_id = text " 550E8400-E29B-41D4-A716-446655440ABC "

upper_id-accepted : create_uuid_id upper_id ≡ ok lower_id
unfolding create_uuid_id
upper_id-accepted = refl

create_uuid_id-IsCanonical_example : IsCanonical lower_id
create_uuid_id-IsCanonical_example = create_uuid_id-IsCanonical upper_id lower_id upper_id-accepted

abbrev two_seats : CreateReservationRequestInput
two_seats = record {
  id = text "r1";
  movie_provider_id = text "lux";
  screening_id = text "evening";
  seat_ids = text "a1" ∷ text "a2" ∷ [];
  requested_by_user_id = text "ann";
}

abbrev waiting : ReservationRequest
waiting = request_for (text "r1")

abbrev started : ReservationRequest
started = record waiting { status = processing }
