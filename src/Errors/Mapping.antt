-- ===== src/Errors/Mapping.antt =====
-- How application closes are found in wrapped errors and turned into terminal errors.
use pulse_go.Base.{String, none, some, ◌≡◌, ◌≢◌, arith}
use pulse_go.Errors.{
  Error, eof, as_terminal, as_application, map_error, wrap_error, close_info_from_error,
  classify_close_code, or_else,
}

-- Mapping an error a second time changes nothing.
pub map_error_idem : (e : Error) → map_error (map_error e) ≡ map_error e
unfolding map_error as_terminal
map_error_idem e = ground arith

-- What mapping an error does to the close information that a caller finds in it: an error that
-- already holds a terminal error keeps that one; any other error that holds an application close
-- gets that close's code, reason and origin, with the retry class of the code; an error that holds
-- neither has none, and is returned as it is.
pub close_info-map_error :
    (e : Error)
    → close_info_from_error (map_error e)
      ≡ or_else (close_info_from_error e) (elim (as_application e) [
        | none ↦ none
        | some a ↦ some (record {
          code = a.error_code;
          reason = a.error_message;
          remote = a.remote;
          retry = classify_close_code a.error_code;
        })
      ])
unfolding map_error as_terminal close_info_from_error
close_info-map_error e = ground arith

-- The operation that `wrapConnectionError` puts in front hides nothing: the close information is
-- that of the mapped error, through two wrappers.
pub close_info-wrap_error :
    (operation outer : String) (e : Error)
    → close_info_from_error (wrap_error outer (wrap_error operation e))
      ≡ close_info_from_error (map_error e)
unfolding wrap_error map_error close_info_from_error as_terminal as_application
close_info-wrap_error operation outer e = ground arith

-- An error other than `io.EOF` is never mapped to `io.EOF`, an application close included.
pub map_error-ne-eof : (e : Error) → e ≢ eof → map_error e ≢ eof
unfolding map_error
map_error-ne-eof e h = ground arith
