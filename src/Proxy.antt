-- ===== src/Proxy.antt =====
-- The websocket proxy of mydis/websocket_proxy.go: the request that it makes of a websocket's, and
-- the messages that it passes on.
pub mod Laws
use mydis_old.Prelude.{
  ℕ, Bool, true, false, ◌==◌, if◌then◌else◌, Option, none, some, List, [], ◌∷◌, ◌++◌, Bytes, codes,
  beq, drop, has_prefix, length, ltb,
}

-- What the proxy reads of a request: whether it asks for a websocket, the header
-- Sec-WebSocket-Protocol, the URL, and the URL's parameter "method"; a missing text is empty.
pub record Incoming : Type 0 where
  pub upgrade : Bool
  pub protocol : Bytes
  pub url : Bytes
  pub method_param : Bytes

-- The request for the handler behind the proxy; `none` where the header is not set.
pub record Forwarded : Type 0 where
  pub method : Bytes
  pub url : Bytes
  pub authorization : Option Bytes

-- The handler has the request as it is, or a websocket is opened, with a protocol for the answer.
pub data Route : Type 0 where
  passed_on : Route
  proxied : Option Bytes → Forwarded → Route

-- strings.Replace(s, "Bearer, ", "Bearer ", 1)
unfoldable pub join_bearer : Bytes → Bytes
join_bearer [] = []
join_bearer (b ∷ bs) =
    let rest = join_bearer bs in
    if has_prefix (b ∷ bs) (codes "Bearer, ") then codes "Bearer " ++ drop 8 (b ∷ bs) else b ∷ rest

abbrev pub authorization_of : Bytes → Option Bytes
authorization_of [] = none
authorization_of (b ∷ bs) = some (join_bearer (b ∷ bs))

abbrev pub answered_protocol : Bytes → Option Bytes
answered_protocol protocol =
    if has_prefix protocol (codes "Bearer") then some (codes "Bearer") else none

abbrev pub method_of : Bytes → Bytes
method_of [] = codes "POST"
method_of (b ∷ bs) = b ∷ bs

abbrev pub forwarded : Incoming → Forwarded
forwarded r = record {
  method = method_of r.method_param;
  url = r.url;
  authorization = authorization_of r.protocol;
}

unfoldable pub websocket_proxy : Incoming → Route
websocket_proxy r =
    if r.upgrade then proxied (answered_protocol r.protocol) (forwarded r) else passed_on

-- The read loop: what the messages of the websocket write to the body of the request.
unfoldable pub write_body : List Bytes → Bytes
write_body [] = []
write_body (p ∷ ps) = p ++ 10 ∷ write_body ps

-- bufio.ScanLines takes "\r" off the end of a line.
unfoldable pub drop_return : Bytes → Bytes
drop_return [] = []
drop_return (b ∷ bs) = let rest = drop_return bs in if beq (b ∷ bs) (13 ∷ []) then [] else b ∷ rest

-- The pieces between the bytes "\n": the first, and the others.
unfoldable pub pieces : Bytes → Bytes × List Bytes
pieces [] = ([], [])
pieces (b ∷ bs) =
    let (piece, others) = pieces bs in if b == 10 then ([], piece ∷ others) else (b ∷ piece, others)

-- bufio.MaxScanTokenSize
abbrev pub max_line : ℕ
max_line = 65536

abbrev last_line : Bytes → List Bytes
last_line [] = []
last_line (b ∷ bs) = if ltb (length (b ∷ bs)) max_line then drop_return (b ∷ bs) ∷ [] else []

-- The lines that the scanner finds; it stops at one that is too long. The last piece has no "\n"
-- behind it and is a line unless it is empty.
unfoldable pub scan_lines : Bytes → List Bytes → List Bytes
scan_lines p [] = last_line p
scan_lines p (q ∷ ps) =
    let rest = scan_lines q ps in if ltb (length p) max_line then drop_return p ∷ rest else []

-- The write loop does not send empty lines.
abbrev pub send_line : Bytes → List Bytes → List Bytes
send_line [] sent = sent
send_line (b ∷ bs) sent = (b ∷ bs) ∷ sent

unfoldable pub send_lines : List Bytes → List Bytes
send_lines [] = []
send_lines (l ∷ ls) = send_line l (send_lines ls)

-- The write loop: the messages that the body of a response makes.
unfoldable pub sent_messages : Bytes → List Bytes
sent_messages body = send_lines (scan_lines (pieces body).0 (pieces body).1)
