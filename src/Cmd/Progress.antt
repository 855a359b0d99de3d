-- ===== src/Cmd/Progress.antt =====
-- cmd/wani-client/main.go: the function `progress` of `runSend` and `runReceive`, which numbers the
-- files as it draws a bar for each. The bars themselves (github.com/schollz/progressbar) are output:
-- a bar is the number and the path in its description, and what it was last set to.
pub mod Counting
pub mod Bounds
mod Tests
use wani.Base.{
  ℕ, ◌+◌, Bool, List, [], ◌∷◌, ◌++◌, Option, none, some, Text, text_eq, Dict, if◌then◌else◌,
}
use wani.Client.Transfer.Receive.{Progress, skips}

pub record Bar : Type 0 where
  pub number : ℕ
  pub name : Text
  pub at : ℕ
  pub max : ℕ

-- The variables that the closure changes: `bar` is nil before the first file.
pub record Counter : Type 0 where
  pub idx : ℕ
  pub last_path : Text
  pub bar : Option Bar
  pub finished : List Bar

abbrev pub finish : Option Bar → List Bar → List Bar
finish none bars = bars
finish (some b) bars = bars ++ b ∷ []

-- A path other than the last one: the bar is finished, and a new one gets the next number.
unfoldable pub next_file : Progress → Counter → Counter
next_file p c = if text_eq p.path c.last_path then c else record {
  idx = c.idx + 1;
  last_path = p.path;
  bar = some (record { number = c.idx + 1; name = p.path; at = 0; max = p.total });
  finished = finish c.bar c.finished;
}

abbrev pub set_bar : ℕ → Option Bar → Option Bar
set_bar n none = none
set_bar n (some b) = some (record b { at = n })

-- One call, where `done` are the paths that were completed before.
unfoldable pub progress : Dict Bool → Progress → Counter → Counter
unfolding next_file
progress done p c =
    let d = next_file p c in
    if skips done p.path then c else record d { bar = set_bar p.written d.bar }

unfoldable pub progress_all : Dict Bool → List Progress → Counter → Counter
unfolding progress
progress_all done [] c = c
progress_all done (p ∷ ps) c = progress_all done ps (progress done p c)

-- The variables before the first call.
abbrev pub counter_from : ℕ → Counter
counter_from idx = record { idx = idx; last_path = []; bar = none; finished = [] }
