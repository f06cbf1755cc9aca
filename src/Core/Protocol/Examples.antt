-- ===== src/Core/Protocol/Examples.antt =====
-- Tests of the failure codes: those of protocol.rs.
use aursmith.Base.{◌≡◌, refl}
use aursmith.Core.Protocol.{classify_error_code, transient, config, deterministic}

lease_expired : classify_error_code "LEASE_EXPIRED" ≡ transient
unfolding classify_error_code
lease_expired = refl

image_missing : classify_error_code "BUILD_IMAGE_MISSING" ≡ config
unfolding classify_error_code
image_missing = refl

unknown_code : classify_error_code "SOMETHING_NEW" ≡ deterministic
unfolding classify_error_code
unknown_code = refl
