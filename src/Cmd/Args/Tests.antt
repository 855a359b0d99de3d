-- ===== src/Cmd/Args/Tests.antt =====
-- Tests of the choice of a command.
use wani.Base.{◌≡◌, refl, [], ◌∷◌, codes, ok, err, text_eq, starts_with, split, join}
use wani.Client.Paths.{clean, elements, clean_parts, clean_step, up, is_rooted, show_parts}
use wani.Cmd.Args.{
  send, missing_path, unknown_command, trim_quotes, clean_argument, first_path, choose,
}

-- The quote that PowerShell leaves behind a backslash goes, and so do slashes at the end.
quote_test :
    choose (λ args. ok args) (λ args. ok (codes ".", args)) (codes "send" ∷ codes "a//b/\"" ∷ [])
    ≡ ok (send (codes "a/b"))
unfolding choose first_path trim_quotes clean_argument clean elements clean_parts clean_step up
    is_rooted show_parts text_eq starts_with split join
quote_test = refl

refused_tests :
    (choose (λ args. ok args) (λ args. ok (codes ".", args)) (codes "send" ∷ []) ≡ err missing_path)
    × (choose (λ args. ok args) (λ args. ok (codes ".", args)) (codes "sned" ∷ [])
        ≡ err (unknown_command (codes "sned")))
unfolding choose first_path text_eq
refused_tests = (refl, refl)
