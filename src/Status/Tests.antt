-- ===== src/Status/Tests.antt =====
-- Tests of the status texts.
use auroralink.Prelude.{◌≡◌, refl, ◌⊎◌}
use auroralink.Status.{err_unknown, err_signature_mismatch, egd_status_to_string}
use auroralink.Status.Texts.{same_text, HasNoText}

mismatch_text : egd_status_to_string err_signature_mismatch ≡ egd_status_to_string err_unknown
unfolding egd_status_to_string
mismatch_text = refl

same_text_example :
    (err_signature_mismatch ≡ err_unknown)
    ⊎ (HasNoText err_signature_mismatch × HasNoText err_unknown)
same_text_example = same_text err_signature_mismatch err_unknown mismatch_text
