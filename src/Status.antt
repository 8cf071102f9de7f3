-- ===== src/Status.antt =====
-- libEGD-master/src/egd/util/egd_status.h and egd_status.cpp: the status of every call of the
-- library, its number and its text.
pub mod Texts
mod Tests
use auroralink.Prelude.{Text, codes, Bool, true, false}
use auroralink.Prelude.Int.{ℤ, pos, negsuc}

pub data EgdStatus : Type 0 where
  ok : EgdStatus
  err_unknown : EgdStatus
  err_null : EgdStatus
  err_curl_init : EgdStatus
  err_curl_request : EgdStatus
  err_xml_parse : EgdStatus
  err_xml_producer_not_found : EgdStatus
  err_xml_exchange_not_found : EgdStatus
  err_page_not_found : EgdStatus
  err_var_not_found : EgdStatus
  err_invalid_address : EgdStatus
  err_invalid_socket : EgdStatus
  err_bind : EgdStatus
  err_broadcast : EgdStatus
  err_unable_to_reuse : EgdStatus
  err_buf_size : EgdStatus
  err_message_too_large : EgdStatus
  err_publish : EgdStatus
  err_json_parse : EgdStatus
  err_invalid_json : EgdStatus
  err_out_of_bounds : EgdStatus
  err_signature_mismatch : EgdStatus

-- The enumerator's number; `negsuc n` is -(n + 1).
unfoldable pub status_code : EgdStatus → ℤ
status_code ok = pos 1
status_code err_unknown = negsuc 0
status_code err_null = negsuc 1
status_code err_curl_init = negsuc 2
status_code err_curl_request = negsuc 3
status_code err_xml_parse = negsuc 4
status_code err_xml_producer_not_found = negsuc 5
status_code err_xml_exchange_not_found = negsuc 6
status_code err_page_not_found = negsuc 7
status_code err_var_not_found = negsuc 8
status_code err_invalid_address = negsuc 9
status_code err_invalid_socket = negsuc 10
status_code err_bind = negsuc 11
status_code err_broadcast = negsuc 12
status_code err_unable_to_reuse = negsuc 13
status_code err_buf_size = negsuc 14
status_code err_message_too_large = negsuc 15
status_code err_publish = negsuc 16
status_code err_json_parse = negsuc 17
status_code err_invalid_json = negsuc 18
status_code err_out_of_bounds = negsuc 19
status_code err_signature_mismatch = negsuc 20

-- The test `status == EgdStatus::OK`.
abbrev pub is_ok : EgdStatus → Bool
is_ok ok = true
is_ok _ = false

-- The `switch`; the last clause is its `default`.
unfoldable pub egd_status_to_string : EgdStatus → Text
egd_status_to_string ok = codes "Ok"
egd_status_to_string err_unknown = codes "Unknown error"
egd_status_to_string err_null = codes "Null value passed to library"
egd_status_to_string err_curl_init = codes "Unable to initialize curl"
egd_status_to_string err_curl_request = codes "Unable to make curl request"
egd_status_to_string err_xml_parse = codes "Unable to parse XML document into string"
egd_status_to_string err_xml_producer_not_found =
    codes "Unable to find the producer section of the XML"
egd_status_to_string err_xml_exchange_not_found =
    codes "Unable to find the exchange section of the XML"
egd_status_to_string err_page_not_found = codes "Unable to find requested page"
egd_status_to_string err_var_not_found = codes "Unable to find requested variable"
egd_status_to_string err_invalid_address = codes "Invalid address"
egd_status_to_string err_invalid_socket =
    codes "Invalid socket, it is possible that all FD's are occupied"
egd_status_to_string err_bind = codes "Unable to bind to requested IP address"
egd_status_to_string err_broadcast = codes "Unable to set broadcast on socket"
egd_status_to_string err_unable_to_reuse = codes "Unable to set reuse on socket"
egd_status_to_string err_buf_size = codes "Unable to set the buffer size on the socket"
egd_status_to_string err_message_too_large = codes "Message too large"
egd_status_to_string err_publish = codes "Unable to publish message"
egd_status_to_string err_json_parse = codes "Unable to parse JSON string"
egd_status_to_string err_invalid_json = codes "Invalid JSON passed to publish function"
egd_status_to_string err_out_of_bounds =
    codes "Attempted to read/write outside bounds of EGD payload"
egd_status_to_string _ = codes "Unknown error"
