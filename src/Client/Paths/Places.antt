-- ===== src/Client/Paths/Places.antt =====
-- path/filepath: paths of plain names below one directory are different for different names.
use mathlib.Core.List.{reverse, reverse-reverse, append_cancel_right}
use wani.Base.{◌≡◌, sym, ap, ◌∙◌, ◌≢◌, List, [], Text, All}
use wani.Client.Paths.{elements, join_path}
use wani.Client.Paths.Elements.{IsPlain}
use wani.Client.Paths.Join.{names_path, elements-join_path}

pub join_path-injective :
    (p : Text) (ns ms : List Text)
    → p ≢ []
    → ns ≢ []
    → ms ≢ []
    → All IsPlain ns
    → All IsPlain ms
    → join_path p (names_path ns) ≡ join_path p (names_path ms)
    → ns ≡ ms
join_path-injective p ns ms stands n m hn hm same =
    let back : reverse ns ≡ reverse ms =
      append_cancel_right (reverse ns) (reverse ms) (elements p) (
        sym (elements-join_path p ns stands n hn)
        ∙ ap elements same
        ∙ elements-join_path p ms stands m hm) in
    sym (reverse-reverse ns) ∙ ap reverse back ∙ reverse-reverse ms
