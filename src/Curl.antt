-- ===== src/Curl.antt =====
-- libcurl as the clients use it: a request, and what a transfer gives.
use frog_quant.Prelude.{ℕ, Option, List, Text}

-- What libcurl is asked to send.
pub record HttpRequest : Type 0 where
  pub method : Text
  pub url : Text
  pub headers : List Text
  pub fields : Text

-- The text of the error code unless it is CURLE_OK, the status and the body.
pub record Transfer : Type 0 where
  pub failure : Option Text
  pub http_code : ℕ
  pub body : Text
