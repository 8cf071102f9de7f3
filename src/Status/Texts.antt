-- ===== src/Status/Texts.antt =====
-- Which statuses the numbers and the texts of statuses tell apart.
use auroralink.Prelude.{codes, ◌≡◌, ◌⊎◌, arith}
use auroralink.Status.{EgdStatus, status_code, egd_status_to_string}

-- No two statuses share a number.
pub status_code_injective : (s t : EgdStatus) → status_code s ≡ status_code t → s ≡ t
unfolding status_code
status_code_injective s t h = ground arith

-- The statuses that the `switch` has no text of its own for.
abbrev pub HasNoText : EgdStatus → Type 0
HasNoText s = (s ≡ EgdStatus.err_unknown) ⊎ (s ≡ EgdStatus.err_signature_mismatch)

pub unknown_text : (s : EgdStatus) → egd_status_to_string s ≡ codes "Unknown error" → HasNoText s
unfolding egd_status_to_string
unknown_text s h = ground arith

-- Two statuses share a text only if they are equal, or both are among `err_unknown` and
-- `err_signature_mismatch`.
pub same_text :
    (s t : EgdStatus)
    → egd_status_to_string s ≡ egd_status_to_string t
    → (s ≡ t) ⊎ (HasNoText s × HasNoText t)
unfolding egd_status_to_string
same_text s t h = ground arith
