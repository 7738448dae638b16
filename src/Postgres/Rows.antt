-- ===== src/Postgres/Rows.antt =====
-- The rows that the driver returns:
-- src/infrastructure/repositories/postgres/postgres-mappers.ts, its row interfaces. A column that
-- may be null or absent is an option, and the decimal text of a `bigint` is the number that
-- `Number` reads from it.
use movie_reservation_servic.Prelude.{ℕ, JsString, Option}

-- `Date | string`: a `Date` of some time value, or a text.
pub data Timestamp : Type 0 where
  date_value : ℕ → Timestamp
  date_text : JsString → Timestamp

pub record MovieProviderRow : Type 0 where
  pub id : JsString
  pub code : JsString
  pub name : JsString

pub record MovieRow : Type 0 where
  pub id : JsString
  pub movie_provider_id : JsString
  pub title : JsString
  pub rating : JsString
  pub duration_minutes : ℕ

pub record AuditoriumRow : Type 0 where
  pub id : JsString
  pub movie_provider_id : JsString
  pub name : JsString

pub record ScreeningRow : Type 0 where
  pub id : JsString
  pub movie_provider_id : JsString
  pub movie_id : JsString
  pub auditorium_id : JsString
  pub starts_at : Timestamp
  pub ends_at : Timestamp

pub record SeatRow : Type 0 where
  pub id : JsString
  pub movie_provider_id : JsString
  pub auditorium_id : JsString
  pub row_label : JsString
  pub seat_number : ℕ

pub record ReservationRequestRow : Type 0 where
  pub id : JsString
  pub sequence : ℕ
  pub movie_provider_id : JsString
  pub screening_id : JsString
  pub requested_by_user_id : JsString
  pub status : JsString
  pub requested_at : Timestamp
  pub claimed_by : Option JsString
  pub claim_token : Option JsString
  pub claimed_at : Option Timestamp
  pub claim_expires_at : Option Timestamp
  pub last_heartbeat_at : Option Timestamp
  pub lease_timeout_count : ℕ
  pub transient_failure_count : ℕ
  pub processed_at : Option Timestamp
  pub updated_at : Timestamp
  pub correlation_id : Option JsString
  pub request_id : Option JsString
  pub traceparent : Option JsString
  pub tracestate : Option JsString

pub record ReservationRow : Type 0 where
  pub id : JsString
  pub movie_provider_id : JsString
  pub reservation_request_id : JsString
  pub screening_id : JsString
  pub reserved_by_user_id : JsString
  pub confirmed_at : Timestamp

pub record AttemptRow : Type 0 where
  pub reservation_request_id : JsString
  pub reservation_request_sequence : ℕ
  pub started_at : Timestamp
  pub completed_at : Timestamp
  pub outcome : JsString
  pub reason : Option JsString
  pub reservation_id : Option JsString
  pub conflicting_reservation_id : Option JsString

-- The rows of `reservation_request_seats` and of `reservation_seats`
pub record RequestSeatRow : Type 0 where
  pub reservation_request_id : JsString
  pub movie_provider_id : JsString
  pub screening_id : JsString
  pub auditorium_id : JsString
  pub seat_id : JsString

pub record ReservationSeatRow : Type 0 where
  pub reservation_id : JsString
  pub movie_provider_id : JsString
  pub screening_id : JsString
  pub auditorium_id : JsString
  pub seat_id : JsString
