-- ===== src/Event/Pgstore/Errors.antt =====
-- event/pgstore/store.go: the search for a duplicate key in the text of an error.
use text.Mathlib.Text.{starts_with}
use skene.Prelude.{String, Bool, false, ◌||◌, ◌==◌}
use skene.Event.Pgstore.Postgres.{DbError, no_rows, failed}

-- `searchString`
unfoldable pub search_string : String → String → Bool
search_string String.[] t = starts_with String.[] t
search_string (String.◌∷◌ c s) t = starts_with (String.◌∷◌ c s) t || search_string s t

-- `containsString`: a text that is shorter, or as long and another, does not hold the other one.
abbrev pub contains_string : String → String → Bool
contains_string s t = (s == t) || search_string s t

-- `isDuplicateKeyError`
unfoldable pub is_duplicate_key_error : DbError → Bool
unfolding search_string
is_duplicate_key_error no_rows = false
is_duplicate_key_error (failed code message) =
    contains_string message "23505" || contains_string message "duplicate key"
