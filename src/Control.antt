-- ===== src/Control.antt =====
-- control/local_http_server.cpp: `LocalHttpServer`, which answers one request at a time. Sockets and
-- the reading and writing of HTTP are Boost's; a round of the loop is what they bring. The version,
-- the headers and the length of an answer are left out.
pub mod Lifecycle
use frog_quant.Prelude.{ℕ, Option, none, some, List, [], ◌∷◌, ◌++◌, Text, bytes}

-- What the handler fills in.
pub record Response : Type 0 where
  pub status : ℕ
  pub body : Text

pub record Request : Type 0 where
  pub method : Text
  pub target : Text
  pub body : Text

unfoldable pub not_found : Response
not_found = record {
  status = 404;
  body = bytes "{\"ok\":false,\"code\":\"E_NOT_FOUND\",\"error\":\"route not found\"}";
}

-- Nobody connects, accepting fails, reading fails, or a request comes with what the handler reads
-- of its surroundings.
pub data Round (E : Type 0) : Type 0 where
  would_block accept_failed read_failed : Round E
  received : E → Request → Round E

-- The handler's answer, or the server's if it returns `false`.
abbrev pub Handler : Type 0 → Type 0 → Type 0
Handler E S = E → Request → S → S × Option Response

abbrev pub or_not_found : Option Response → Response
or_not_found none = not_found
or_not_found (some r) = r

module _ {E S : Type 0} (handler : Handler E S) where
  unfoldable pub answer : E → Request → S → S × Response
  unfolding not_found
  answer env req s = let (s', r) = handler env req s in (s', or_not_found r)

  -- One round of the loop, with the answers that are written.
  unfoldable pub serve_round : Round E → S × List Response → S × List Response
  unfolding answer
  serve_round (received env req) (s, out) = let (s', r) = answer env req s in (s', out ++ r ∷ [])
  serve_round _ (s, out) = (s, out)

  unfoldable pub serve : List (Round E) → S × List Response → S × List Response
  unfolding serve_round
  serve [] s = s
  serve (r ∷ rest) s = serve rest (serve_round r s)
