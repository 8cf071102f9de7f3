-- ===== src/Config/Fetch.antt =====
-- libEGD-master/src/egd/config/egd_config.cpp, `GetRequest` and the callback that collects the
-- response.
use auroralink.Prelude.{Text, Option, none, some, List, [], ◌∷◌, ◌++◌, ◌==◌, if◌then◌else◌}
use auroralink.Status.{EgdStatus, ok, err_null, err_curl_init, err_curl_request}
use auroralink.Config.Libraries.{Transfer}

-- The write callback: the chunk joins the response, and all of it counts as taken.
unfoldable pub egd_config_read_response_callback : Text → Text → Text
egd_config_read_response_callback chunk response = response ++ chunk

-- libcurl calls it once for each chunk.
unfoldable pub receive_chunks : List Text → Text → Text
unfolding egd_config_read_response_callback
receive_chunks [] response = response
receive_chunks (c ∷ cs) response = receive_chunks cs (egd_config_read_response_callback c response)

-- The response pointer may be null. `CURLE_OK` is 0.
unfoldable pub get_request : Transfer → Text → Option Text → Option Text × EgdStatus
unfolding receive_chunks
get_request t url none = (none, err_null)
get_request t url (some response) =
    if t.easy_init
    then (let (chunks, rc) = t.easy_perform url in
        (some (receive_chunks chunks response), if rc == 0 then ok else err_curl_request))
    else (some response, err_curl_init)
