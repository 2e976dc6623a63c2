-- ===== src/Rest.antt =====
-- restapi/server.go: who is let through. The parts of a request are parameters of net/http and of the
-- websocket package.
pub mod Allowed
mod Tests
use tun_flow.Base.{
  Bool, true, false, not, ◌&&◌, ◌||◌, Option, none, some, if◌then◌else◌, Bytes, is_empty,
}
use tun_flow.Base.Text.{bytes_eq, codes, cut_at}

-- What `authenticator` reads of a request: whether it is a websocket upgrade, the value of `token` in
-- its query, and that of its Authorization header; both are empty where there is none.
pub record Request : Type 0 where
  pub is_upgrade : Bool
  pub query_token : Bytes
  pub header : Bytes

-- strings.SplitN of the header into two: the first part, and the second, if there is one.
abbrev first_part : Bytes → Option (Bytes × Bytes) → Bytes
first_part header none = header
first_part header (some (a, b)) = a

abbrev has_token : Bytes → Option (Bytes × Bytes) → Bool
has_token token none = false
has_token token (some (a, b)) = bytes_eq b token

-- Whether `authenticator` hands the request on; otherwise it answers 401.
unfoldable pub authenticator : (token : Bytes) → Request → Bool
authenticator token r =
    if is_empty token
    then true
    else if r.is_upgrade && not (is_empty r.query_token)
    then bytes_eq r.query_token token
    else (let text = cut_at 32 r.header in
        let has_invalid_header = not (bytes_eq (first_part r.header text) (codes "Bearer")) in
        let has_invalid_token = not (has_token token text) in
        not (has_invalid_header || has_invalid_token))
