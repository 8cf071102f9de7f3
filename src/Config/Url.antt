-- ===== src/Config/Url.antt =====
-- libEGD-master/src/egd/config/egd_config.cpp, `MakeBaseUrl`, and the decimal numbers that it and
-- consumer_config.cpp print.
pub mod Decimal
use auroralink.Prelude.{ℕ, zero, suc, ◌+◌, ◌/◌, ◌%◌, Text, codes, [], ◌∷◌, ◌++◌, ltb, if◌then◌else◌}
use auroralink.Config.Libraries.{UrlLibrary}

-- `std::to_string` and `%u`. The fuel bounds the number of digits before the last.
unfoldable pub decimal_digits : ℕ → ℕ → Text
decimal_digits zero n = (48 + n % 10) ∷ []
decimal_digits (suc fuel) n =
    let front = decimal_digits fuel (n / 10) in
    if ltb n 10 then (48 + n) ∷ [] else front ++ (48 + n % 10) ∷ []

-- A number has at most as many digits as it counts.
unfoldable pub decimal : ℕ → Text
unfolding decimal_digits
decimal n = decimal_digits n n

module _ (u : UrlLibrary) where
  open u use {Url, empty, scheme, host, port, path, add_query}

  unfoldable pub make_base_url : Text → ℕ → ℕ → Url
  unfolding decimal
  make_base_url h p producer_id = add_query (codes "ProducerID") (decimal producer_id) (
      add_query (codes "Active") (codes "true") (
        add_query (codes "Action") (codes "GetDoc")
          (path (codes "/EGD") (port p (host h (scheme (codes "http") empty))))))
