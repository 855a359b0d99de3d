-- ===== src/Base.antt =====
-- The names that the other modules share: those of the libraries, passed on, and those of the
-- children: tests, results, lists, texts and maps keyed by text.
mod Tests
mod Results
mod Lists
mod Texts
mod Dicts
mod Int
pub mod State
pub use Tests.*
pub use Results.*
pub use Lists.*
pub use Int.*
unfoldable pub use Texts.{text_eq, starts_with, split, join, is_space, trim_space, contains}
pub use Texts.{
  Text, codes, text_eq_iff, text_eq_self, text_eq-ne, split-append, split-ne-nil, join-cons,
  join-split, split_none, split_free,
}
unfoldable pub use Dicts.{lookup, insert, erase}
pub use Dicts.{
  Dict, keys, has, lookup-insert, lookup-erase, Distinct, insert-Distinct, erase-Distinct,
}
pub use Prim.Native.Nat.{ℕ, zero, suc, ◌+◌, ◌-◌, ◌*◌, ◌/◌, ◌%◌, ◌^◌, ◌≤◌, ◌<◌}
pub use Prim.Native.String.{String}
pub use mathlib.Core.Path.{◌≡◌, refl, sym, ap, subst, ◌∙◌}
pub use mathlib.Core.Logic.{◌≢◌, ◌↔◌, ◌⊎◌, inl, inr}
pub use mathlib.Core.Bool.{Bool, true, false, not, ◌&&◌, ◌||◌}
pub use mathlib.Core.Option.{Option, none, some}
pub use mathlib.Core.List.{List, [], ◌∷◌, ◌++◌, map, append_assoc, append-nil}
pub use native.Mathlib.Omega.{arith}
pub use text.Mathlib.Text.{◌==◌ as str_eq}
