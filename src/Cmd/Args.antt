-- ===== src/Cmd/Args.antt =====
-- cmd/wani-client/main.go: which command `run` starts, and with which arguments. The package flag is
-- a parameter: what it leaves of the arguments of a command, or the text of its error.
mod Tests
use wani.Base.{
  ℕ, List, [], ◌∷◌, String, Text, codes, Result, ok, err, panic, ◌==◌, text_eq, if◌then◌else◌,
  ◌>>=◌,
}
use wani.Client.Paths.{clean}

pub data Command : Type 0 where
  usage : Command
  stun : Command
  -- The path to send.
  send : Text → Command
  -- The destination and the pairing code.
  receive : Text → Text → Command

pub data ArgumentError : Type 0 where
  unknown_command : Text → ArgumentError
  bad_flags : String → ArgumentError
  missing_path : ArgumentError
  missing_code : ArgumentError

-- One character in front of a text whose quotes at the end are gone.
abbrev put_back : ℕ → Text → Text
put_back c [] = if c == b'"' then [] else c ∷ []
put_back c (d ∷ rest) = c ∷ d ∷ rest

-- `strings.TrimRight(s, "\"")`.
unfoldable pub trim_quotes : Text → Text
trim_quotes [] = []
trim_quotes (c ∷ cs) = put_back c (trim_quotes cs)

-- The path that an argument names.
unfoldable pub clean_argument : Text → Text
clean_argument text = clean (trim_quotes text)

abbrev pub flags_of : {A : Type 0} → Result String A → Result ArgumentError A
flags_of (ok a) = ok a
flags_of (err text) = err (bad_flags text)
flags_of panic = panic

first_path : List Text → Result ArgumentError Command
unfolding clean_argument
first_path [] = err missing_path
first_path (path ∷ rest) = ok (send (clean_argument path))

first_code : Text × List Text → Result ArgumentError Command
unfolding clean_argument
first_code (out_dir, []) = err missing_code
first_code (out_dir, code ∷ rest) = ok (receive (clean_argument out_dir) code)

-- `parse_receive` gives the destination too, which is "." by default.
module _ (parse_send : List Text → Result String (List Text))
    (parse_receive : List Text → Result String (Text × List Text)) where
  unfoldable pub choose : List Text → Result ArgumentError Command
  unfolding first_path first_code
  choose [] = ok usage
  choose (name ∷ args) =
      if text_eq name (codes "stun")
      then ok stun
      else if text_eq name (codes "send")
      then (flags_of (parse_send args) >>= first_path)
      else if text_eq name (codes "receive")
      then (flags_of (parse_receive args) >>= first_code)
      else err (unknown_command name)
