-- ===== src/Memory/Store.antt =====
-- src/infrastructure/repositories/in-memory/in-memory-movie-reservation.store.ts
use movie_reservation_servic.Prelude.{
  ℕ, ◌+◌, Option, none, some, List, [], ◌∷◌, ◌++◌, JsString, Result, ok, err, Exec, pure, lift,
  gets, modify, throw_if, ◌>>=◌, ◌>>◌,
}
use movie_reservation_servic.Prelude.JsMap.{JsMap, get, set, has}
use movie_reservation_servic.Errors.{request_already_exists, no_work_metadata}
use movie_reservation_servic.Domain.Catalog.{MovieProvider, Auditorium, Movie, Screening, Seat}
use movie_reservation_servic.Domain.Request.{ReservationRequest, create_sequence}
use movie_reservation_servic.Domain.Reservation.{Reservation}
use movie_reservation_servic.Work.{ObservabilityContext, AttemptBase, ProcessingAttempt}
use movie_reservation_servic.Work

-- `InMemoryReservationRequestWorkMetadata`
pub record WorkMetadata : Type 0 where
  pub sequence : ℕ
  pub observability_context : Option ObservabilityContext
  pub lease_timeout_count : ℕ
  pub transient_failure_count : ℕ
  pub claimed_by : Option JsString
  pub claim_token : Option JsString
  pub claimed_at : Option JsString
  pub claim_expires_at : Option JsString
  pub last_heartbeat_at : Option JsString

pub record Store : Type 0 where
  pub movie_providers : JsMap MovieProvider
  pub auditoriums : JsMap Auditorium
  pub movies : JsMap Movie
  pub screenings : JsMap Screening
  pub seats : JsMap Seat
  pub requests : JsMap ReservationRequest
  pub reservations : JsMap Reservation
  pub processing_attempts : JsMap (List ProcessingAttempt)
  pub work_metadata : JsMap WorkMetadata
  pub next_sequence : ℕ

pub record StoreInput : Type 0 where
  pub movie_providers : List MovieProvider
  pub auditoriums : List Auditorium
  pub movies : List Movie
  pub screenings : List Screening
  pub seats : List Seat
  pub requests : List ReservationRequest
  pub reservations : List Reservation
  pub processing_attempts : Option (List ProcessingAttempt)

-- The fields as they are initialised, before the constructor's loops.
abbrev pub empty : Store
empty = record {
  movie_providers = [];
  auditoriums = [];
  movies = [];
  screenings = [];
  seats = [];
  requests = [];
  reservations = [];
  processing_attempts = [];
  work_metadata = [];
  next_sequence = 1;
}

-- `allocateReservationRequestSequence`
unfoldable pub allocate_sequence : Exec Store ℕ
allocate_sequence = do
  value ← gets (λ s. s.next_sequence)
  sequence ← lift (create_sequence value)
  modify (λ s. record s { next_sequence = s.next_sequence + 1 })
  pure sequence

-- The metadata of a request that no worker has claimed yet.
abbrev pub fresh_metadata : ℕ → Option ObservabilityContext → WorkMetadata
fresh_metadata sequence context = record {
  sequence = sequence;
  observability_context = context;
  lease_timeout_count = 0;
  transient_failure_count = 0;
  claimed_by = none;
  claim_token = none;
  claimed_at = none;
  claim_expires_at = none;
  last_heartbeat_at = none;
}

abbrev pub put_request : ReservationRequest → Exec Store (Unit {0})
put_request r = modify (λ s. record s { requests = set s.requests r.id r })

-- `updateReservationRequestWorkMetadata`
abbrev pub update_metadata : JsString → WorkMetadata → Exec Store (Unit {0})
update_metadata id m = modify (λ s. record s { work_metadata = set s.work_metadata id m })

-- `saveReservationRequest`
unfoldable pub save_request :
    ReservationRequest → Option ObservabilityContext → Exec Store (Unit {0})
unfolding allocate_sequence
save_request r context = do
  known ← gets (λ s. has s.requests r.id)
  throw_if known (request_already_exists r.id)
  put_request r
  sequence ← allocate_sequence
  update_metadata r.id (fresh_metadata sequence context)

abbrev or_no_metadata : JsString → Option WorkMetadata → Result WorkMetadata
or_no_metadata id none = err (no_work_metadata id)
or_no_metadata id (some m) = ok m

-- `getReservationRequestWorkMetadata`, on the map of the metadata
unfoldable pub metadata_of : JsMap WorkMetadata → JsString → Result WorkMetadata
metadata_of m id = or_no_metadata id (get m id)

unfoldable pub get_metadata : JsString → Exec Store WorkMetadata
unfolding metadata_of
get_metadata id s = (metadata_of s.work_metadata id, s)

-- `getReservationRequestSequence`
unfoldable pub get_sequence : JsString → Exec Store ℕ
unfolding get_metadata
get_sequence id = do m ← get_metadata id; pure m.sequence

abbrev pub or_empty : Option (List ProcessingAttempt) → List ProcessingAttempt
or_empty none = []
or_empty (some attempts) = attempts

abbrev pub base_of : ProcessingAttempt → AttemptBase
base_of (Work.ProcessingAttempt.confirmed a) = a.base
base_of (Work.ProcessingAttempt.rejected a) = a.base
base_of (Work.ProcessingAttempt.failed a) = a.base

-- `recordProcessingAttempt`
unfoldable pub record_attempt : ProcessingAttempt → Exec Store (Unit {0})
record_attempt a = modify (λ s. record s {
  processing_attempts =
      set s.processing_attempts (base_of a).reservation_request_id
        (or_empty (get s.processing_attempts (base_of a).reservation_request_id) ++ a ∷ []);
})

-- One loop of the constructor.
for_each : {A : Type 0} → List A → (A → Exec Store (Unit {0})) → Exec Store (Unit {0})
for_each [] body = pure tt
for_each (x ∷ xs) body = body x >> for_each xs body

-- `new InMemoryMovieReservationStore(input)`; the body runs on the store as initialised.
unfoldable pub construct : StoreInput → Result (Unit {0}) × Store
unfolding for_each save_request record_attempt
construct input = loops empty
  where
    loops : Exec Store (Unit {0})
    loops = do
      for_each input.movie_providers
          (λ p. modify (λ s. record s { movie_providers = set s.movie_providers p.id p }))
      for_each input.auditoriums
          (λ a. modify (λ s. record s { auditoriums = set s.auditoriums a.id a }))
      for_each input.movies (λ m. modify (λ s. record s { movies = set s.movies m.id m }))
      for_each input.screenings
          (λ c. modify (λ s. record s { screenings = set s.screenings c.id c }))
      for_each input.seats (λ x. modify (λ s. record s { seats = set s.seats x.id x }))
      for_each input.requests (λ r. save_request r none)
      for_each input.reservations
          (λ r. modify (λ s. record s { reservations = set s.reservations r.id r }))
      for_each (or_empty input.processing_attempts) record_attempt
