-- ===== src/Tests/Proxy.antt =====
-- Two messages that a handler behind the websocket proxy sends back.
use mydis_old.Prelude.{◌≡◌, refl, List, [], ◌∷◌, Bytes, codes}
use mydis_old.Proxy.{write_body, sent_messages}
use mydis_old.Proxy.Laws.{sent_messages-write_body}

abbrev two_messages : List Bytes
two_messages = codes "{}" ∷ codes "[1]" ∷ []

sent_messages-write_body_example : sent_messages (write_body two_messages) ≡ two_messages
sent_messages-write_body_example = sent_messages-write_body two_messages refl
