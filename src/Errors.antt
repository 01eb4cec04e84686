-- ===== src/Errors.antt =====
-- src/error.rs, and the mark for rejected outputs of src/sink.rs. A boxed error is one of the
-- crate's own, a mark, or an error of other code, which is its text and its cause, if any. The
-- constructor `failed` is `Error::Failed` without a source and `caused` the one with a source.
pub mod Chains
mod Tests
use Prim.Native.String.{◌++◌ as ◌⧺◌}
use beave_rs.Base.{Bool, true, false, String, Option, none, some, List, [], ◌∷◌, any, map}
use beave_rs.Base.Results.{Result, ok, err}

pub data BoxError : Type 0 where
  config invalid_record closed timeout failed : String → BoxError
  caused : String → BoxError → BoxError
  subscription : String → BoxError → BoxError
  publish_rejected : BoxError → BoxError
  foreign : String → BoxError
  foreign_caused : String → BoxError → BoxError

unfoldable pub source : BoxError → Option BoxError
source (config m) = none
source (invalid_record m) = none
source (closed m) = none
source (timeout m) = none
source (failed m) = none
source (caused m e) = some e
source (subscription name e) = some e
source (publish_rejected e) = some e
source (foreign m) = none
source (foreign_caused m e) = some e

-- `Display` without `#`. The argument is the debug format of a string, which quotes it.
unfoldable pub to_string : (String → String) → BoxError → String
to_string quote (config m) = "invalid configuration: " ⧺ m
to_string quote (invalid_record m) = m
to_string quote (closed m) = m
to_string quote (timeout m) = m
to_string quote (failed m) = m
to_string quote (caused m e) = m
to_string quote (subscription name e) = "subscription " ⧺ (quote name ⧺ " failed")
to_string quote (publish_rejected e) = "output rejected by its destination"
to_string quote (foreign m) = m
to_string quote (foreign_caused m e) = m

-- `iter::successors` from an error along `source`.
unfoldable pub causes : BoxError → List BoxError
causes (config m) = config m ∷ []
causes (invalid_record m) = invalid_record m ∷ []
causes (closed m) = closed m ∷ []
causes (timeout m) = timeout m ∷ []
causes (failed m) = failed m ∷ []
causes (caused m e) = caused m e ∷ causes e
causes (subscription name e) = subscription name e ∷ causes e
causes (publish_rejected e) = publish_rejected e ∷ causes e
causes (foreign m) = foreign m ∷ []
causes (foreign_caused m e) = foreign_caused m e ∷ causes e

unfoldable pub causes_of : Option BoxError → List BoxError
causes_of none = []
causes_of (some e) = causes e

-- `join` of a list of texts.
unfoldable pub join : String → List String → String
join separator [] = ""
join separator (s ∷ []) = s
join separator (s ∷ t ∷ rest) = s ⧺ (separator ⧺ join separator (t ∷ rest))

unfoldable pub chain : (String → String) → BoxError → String
chain quote e = join ": " (map (to_string quote) (causes e))

-- The `while let` loop of `Display` and of `Debug`, which appends a text before each cause.
unfoldable pub write_causes : (String → String) → String → String → List BoxError → String
write_causes quote before written [] = written
write_causes quote before written (e ∷ rest) =
    write_causes quote before (written ⧺ (before ⧺ to_string quote e)) rest

-- Whether an error is one of the crate's.
unfoldable pub is_own : BoxError → Bool
is_own (publish_rejected e) = false
is_own (foreign m) = false
is_own (foreign_caused m e) = false
is_own e = true

-- `{:#}`. Only the crate's errors append their causes. `PublishRejected` prints one text in every
-- format, and what errors of other code print with `#` is an argument.
unfoldable pub alternate : (String → String) → (BoxError → String) → BoxError → String
unfolding is_own
alternate quote other (publish_rejected e) = to_string quote (publish_rejected e)
alternate quote other (foreign m) = other (foreign m)
alternate quote other (foreign_caused m e) = other (foreign_caused m e)
alternate quote other e = write_causes quote ": " (to_string quote e) (causes_of (source e))

-- `Error::msg`, `Error::wrap` and `BoxContext::context`.
unfoldable pub msg : String → BoxError
msg m = failed m

unfoldable pub wrap : String → BoxError → BoxError
wrap m e = caused m e

unfoldable pub context : String → BoxError → BoxError
unfolding wrap
context m e = wrap m e

-- `Context::context` of a result and of an option.
unfoldable pub result_context : {A : Type 0} → String → Result BoxError A → Result BoxError A
unfolding wrap
result_context m (ok a) = ok a
result_context m (err e) = err (wrap m e)

unfoldable pub option_context : {A : Type 0} → String → Option A → Result BoxError A
unfolding msg
option_context m none = err (msg m)
option_context m (some a) = ok a

unfoldable pub unbox_if : Bool → String → BoxError → BoxError
unfolding wrap
unbox_if true m e = e
unbox_if false m e = wrap m e

-- `Error::unbox`.
unfoldable pub unbox : BoxError → String → BoxError
unfolding is_own unbox_if
unbox e m = unbox_if (is_own e) m e

is_mark : BoxError → Bool
is_mark (publish_rejected e) = true
is_mark e = false

-- `PublishRejected::wrap` and `PublishRejected::is`.
unfoldable pub mark_rejected : BoxError → BoxError
mark_rejected e = publish_rejected e

unfoldable pub is_rejected : BoxError → Bool
unfolding is_mark
is_rejected e = any is_mark (causes e)
