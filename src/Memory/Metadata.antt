-- ===== src/Memory/Metadata.antt =====
-- The private helpers on work metadata of
-- src/infrastructure/repositories/in-memory/in-memory-reservation-request-work.repository.ts.
use movie_reservation_servic.Prelude.{◌+◌, Bool, ◌&&◌, none, JsString, is_text, Exec, ◌>>=◌}
use movie_reservation_servic.Work.{ClaimedReservationRequest}
use movie_reservation_servic.Memory.Store.{WorkMetadata, Store, update_metadata, get_metadata}

-- The metadata of a request that nobody owns any more.
abbrev pub unclaimed : WorkMetadata → WorkMetadata
unclaimed m = record {
  sequence = m.sequence;
  observability_context = m.observability_context;
  lease_timeout_count = m.lease_timeout_count;
  transient_failure_count = m.transient_failure_count;
  claimed_by = none;
  claim_token = none;
  claimed_at = none;
  claim_expires_at = none;
  last_heartbeat_at = none;
}

-- `clearClaimMetadata`
unfoldable pub clear_claim_metadata : JsString → Exec Store (Unit {0})
unfolding get_metadata
clear_claim_metadata id = do m ← get_metadata id; update_metadata id (unclaimed m)

-- `incrementTransientFailureCount`
unfoldable pub increment_transient_failure_count : JsString → Exec Store (Unit {0})
unfolding get_metadata
increment_transient_failure_count id = do
  m ← get_metadata id
  update_metadata id (record m { transient_failure_count = m.transient_failure_count + 1 })

-- The claim in the metadata is the one of the work item.
abbrev pub holds_claim : WorkMetadata → ClaimedReservationRequest → Bool
holds_claim m c = is_text m.claimed_by c.claimed_by && is_text m.claim_token c.claim_token
