-- ===== src/Client/Remote/Laws.antt =====
-- Theorems on normalizeError of client/client.go.

use mydis_old.Prelude.{◌≡◌, refl}
use mydis_old.Errors.{
  Error, key_not_found, key_locked, invalid_key, type_mismatch, list_empty, list_index_out_of_range,
  hash_field_not_found, other, error_text,
}
use mydis_old.Client.Remote.{Grpc, find_error, normalize_error}

-- What the client relies on of gRPC: the description of an error is the text of the server's error.
pub record IsGrpc (G : Grpc) : Type 0 where
  pub desc_relay : (e : Error) → G.error_desc (G.relay e) ≡ error_text e

-- The errors of util/errors.go.
abbrev pub IsPackageError : Error → Type 0
IsPackageError (other s) = ⊥
IsPackageError _ = Unit

module _ {G : Grpc} (GL : IsGrpc G) where
  -- Where gRPC passes the texts of errors on, normalizeError turns what the client gets for each of
  -- the seven errors of util/errors.go back into that error.
  pub normalize_error-relay : (e : Error) → IsPackageError e → normalize_error G (G.relay e) ≡ e
  unfolding normalize_error find_error error_text
  normalize_error-relay key_not_found h = rw (GL.desc_relay key_not_found, normalize_error) refl
  normalize_error-relay key_locked h = rw (GL.desc_relay key_locked, normalize_error) refl
  normalize_error-relay invalid_key h = rw (GL.desc_relay invalid_key, normalize_error) refl
  normalize_error-relay type_mismatch h = rw (GL.desc_relay type_mismatch, normalize_error) refl
  normalize_error-relay list_empty h = rw (GL.desc_relay list_empty, normalize_error) refl
  normalize_error-relay list_index_out_of_range h =
      rw (GL.desc_relay list_index_out_of_range, normalize_error) refl
  normalize_error-relay hash_field_not_found h =
      rw (GL.desc_relay hash_field_not_found, normalize_error) refl
  normalize_error-relay (other s) h = absurd h
