-- ===== src/Config/Mode.antt =====
-- The publishing modes and the state backends of internal/config/config.go.
use komodor_security_reporte.Prelude.{Bool, if◌then◌else◌, ◌||◌}
use komodor_security_reporte.Prelude.Text.{Text, codes, text_eq, is_empty, to_lower, trim_space}

unfoldable pub is_valid_publishing_mode : Text → Bool
is_valid_publishing_mode mode =
    let m = to_lower (trim_space mode) in
    is_empty m
    || text_eq m (codes "komodor")
    || text_eq m (codes "events")
    || text_eq m (codes "both")

unfoldable pub publish_to_komodor : Text → Bool
publish_to_komodor mode =
    let m = to_lower (trim_space mode) in
    is_empty m || text_eq m (codes "komodor") || text_eq m (codes "both")

unfoldable pub publish_to_events : Text → Bool
publish_to_events mode =
    let m = to_lower (trim_space mode) in text_eq m (codes "events") || text_eq m (codes "both")

unfoldable pub normalize_state_backend : Text → Text
normalize_state_backend backend =
    let normalized = to_lower (trim_space backend) in
    if is_empty (trim_space backend)
    then codes "configmap"
    else if text_eq normalized (codes "external")
    then codes "redis"
    else normalized
