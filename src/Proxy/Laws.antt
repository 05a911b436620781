-- ===== src/Proxy/Laws.antt =====
-- Theorems on the messages that mydis/websocket_proxy.go passes on.
use mydis_old.Prelude.{
  ◌≡◌, refl, ap, ◌∙◌, true, false, Bool, ◌&&◌, ◌==◌, not, List, [], ◌∷◌, ◌++◌, Bytes, arith, beq,
  length, ltb,
}
use mydis_old.Proxy.{
  write_body, drop_return, pieces, max_line, scan_lines, send_line, send_lines, sent_messages,
}

abbrev pub has_no_newline : Bytes → Bool
has_no_newline [] = true
has_no_newline (b ∷ bs) = not (b == 10) && has_no_newline bs

abbrev pub ends_in_return : Bytes → Bool
ends_in_return [] = false
ends_in_return (b ∷ []) = b == 13
ends_in_return (b ∷ c ∷ bs) = ends_in_return (c ∷ bs)

-- A message that is one line, not empty, without "\r" at its end, and short enough.
abbrev pub is_line : Bytes → Bool
is_line [] = false
is_line (b ∷ bs) =
    has_no_newline (b ∷ bs) && not (ends_in_return (b ∷ bs)) && ltb (length (b ∷ bs)) max_line

abbrev pub are_lines : List Bytes → Bool
are_lines [] = true
are_lines (p ∷ ps) = is_line p && are_lines ps

pieces-append :
    (p r : Bytes)
    → has_no_newline p ≡ true
    → pieces (p ++ 10 ∷ r) ≡ (p, (pieces r).0 ∷ (pieces r).1)
unfolding pieces
pieces-append [] r h = refl
pieces-append (b ∷ bs) r h = ground (arith, pieces-append bs r)

drop_return_lem : (p : Bytes) → ends_in_return p ≡ false → drop_return p ≡ p
unfolding drop_return beq
drop_return_lem [] h = refl
drop_return_lem (b ∷ []) h = ground arith
drop_return_lem (b ∷ c ∷ bs) h = ground (arith, drop_return_lem (c ∷ bs) h)

send_line_lem : (p : Bytes) (sent : List Bytes) → is_line p ≡ true → send_line p sent ≡ p ∷ sent
send_line_lem [] sent h = absurd (cc)
send_line_lem (b ∷ bs) sent h = refl

line_parts :
    (p : Bytes)
    → is_line p ≡ true
    → (has_no_newline p ≡ true) × (ends_in_return p ≡ false) × (ltb (length p) max_line ≡ true)
line_parts [] h = absurd (cc)
line_parts (b ∷ bs) h = (ground arith, ground arith, ground arith)

-- Messages that are one line each (not empty, no newline, no carriage return at the end, shorter
-- than 65536 bytes) and that the websocket proxy writes to the body of a request are the messages
-- that it sends for a response with the same body, one by one and in order.
pub sent_messages-write_body :
    (ps : List Bytes) → are_lines ps ≡ true → sent_messages (write_body ps) ≡ ps
unfolding sent_messages write_body scan_lines send_lines pieces
sent_messages-write_body [] h = refl
sent_messages-write_body (p ∷ ps) h =
    let (n, r, l) = line_parts p (ground arith) in
    rw (pieces-append p (write_body ps) n, l, drop_return_lem p r)
      (send_line_lem p _ (ground arith)
        ∙ ap (λ ms. p ∷ ms) (sent_messages-write_body ps (ground arith)))
