-- ===== src/Converter/RoundTrip.antt =====
-- Statuses that go to the cloud and come back.
use oqtopus_engine.Prelude.{◌≡◌, ◌≢◌, refl}
use oqtopus_engine.Core.Status.{Status, submitted, ready, running, succeeded, failed, cancelled}
use oqtopus_engine.Converter.{convert_from_cloud_status, convert_to_api_status}

-- Every status but CANCELLED comes back as it was sent; CANCELLED is sent as failed and comes back as
-- FAILED.
pub status_round_trip :
    (s : Status)
    → (s ≢ cancelled → convert_from_cloud_status (convert_to_api_status s) ≡ s)
      × (s ≡ cancelled → convert_from_cloud_status (convert_to_api_status s) ≡ failed)
unfolding convert_from_cloud_status convert_to_api_status
status_round_trip submitted = ((λ h. refl), λ h. cc)
status_round_trip ready = ((λ h. refl), λ h. cc)
status_round_trip running = ((λ h. refl), λ h. cc)
status_round_trip succeeded = ((λ h. refl), λ h. cc)
status_round_trip failed = ((λ h. refl), λ h. cc)
status_round_trip cancelled = ((λ h. absurd (h refl)), λ h. refl)
