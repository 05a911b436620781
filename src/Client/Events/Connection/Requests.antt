-- ===== src/Client/Events/Connection/Requests.antt =====
-- The requests that client/client.go sends again after a reconnect.
use mydis_old.Prelude.{◌≡◌, refl, ap, true, false, [], ◌∷◌, ◌++◌, Bytes, codes, arith, beq_refl}
use mydis_old.Client.Events.{watch_request, watched_key}
use mydis_old.Client.Events.Connection.{rewatch_request, has_suffix}

has_suffix-append : (a suffix : Bytes) → has_suffix (a ++ suffix) suffix ≡ true
unfolding has_suffix
has_suffix-append [] [] = beq_refl []
has_suffix-append [] (b ∷ bs) = rw (beq_refl (b ∷ bs)) refl
has_suffix-append (b ∷ a) suffix = rw (has_suffix-append a suffix) (ground arith)

-- For the key that the client keeps of a watched prefix, the request after a reconnect is for the
-- prefix with the suffix *_MYDIS_WITHPREFIX behind it; for the key that it keeps of a watched key,
-- it is for that key, and as a prefix only where the key ends in that suffix.
pub rewatch_request-watched_key :
    (key : Bytes)
    → (rewatch_request (watched_key (watch_request key true))
        ≡ watch_request (key ++ codes "*_MYDIS_WITHPREFIX") true)
      × (rewatch_request (watched_key (watch_request key false))
          ≡ watch_request key (has_suffix key (codes "*_MYDIS_WITHPREFIX")))
unfolding rewatch_request watched_key
rewatch_request-watched_key key = (
  ap (watch_request (key ++ codes "*_MYDIS_WITHPREFIX"))
      (has_suffix-append key (codes "*_MYDIS_WITHPREFIX")),
  refl,
)
