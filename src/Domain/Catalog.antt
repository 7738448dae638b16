-- ===== src/Domain/Catalog.antt =====
-- src/domain/movie-reservations: movie-provider.ts, auditorium.ts, movie.ts, screening.ts, seat.ts.
use movie_reservation_servic.Prelude.{ℕ, JsString}

pub record MovieProvider : Type 0 where
  pub id : JsString
  pub code : JsString
  pub name : JsString

pub record Auditorium : Type 0 where
  pub id : JsString
  pub movie_provider_id : JsString
  pub name : JsString

pub record Movie : Type 0 where
  pub id : JsString
  pub movie_provider_id : JsString
  pub title : JsString
  pub rating : JsString
  pub duration_minutes : ℕ

pub record Screening : Type 0 where
  pub id : JsString
  pub movie_provider_id : JsString
  pub movie_id : JsString
  pub auditorium_id : JsString
  pub starts_at : JsString
  pub ends_at : JsString

pub record Seat : Type 0 where
  pub id : JsString
  pub movie_provider_id : JsString
  pub auditorium_id : JsString
  pub row : JsString
  pub number : ℕ
