-- ===== src/Errors/Tests.antt =====
-- The statuses on one error.
use red_eye_engine_gateway.Common.{◌≤◌, ◌<◌, true, ◌≡◌, ◌↔◌, is_some}
use red_eye_engine_gateway.Errors.{loop_detected, into_response}
use red_eye_engine_gateway.Errors.Statuses.{is_limit, into_response_status}

into_response_status_example :
    (400 ≤ (into_response (loop_detected "x")).status)
    × ((into_response (loop_detected "x")).status < 600)
    × (((into_response (loop_detected "x")).status ≡ 429) ↔ (is_limit (loop_detected "x") ≡ true))
    × (is_some (into_response (loop_detected "x")).retry_after ≡ true
        → (into_response (loop_detected "x")).status ≡ 429)
into_response_status_example = into_response_status (loop_detected "x")
