-- ===== src/Cmd/Receive/Advice.antt =====
-- cmd/wani-client/main.go: what `runReceive` leaves and advises when the sender goes away.
use wani.Base.{◌≡◌, List, [], ◌∷◌, ◌++◌, Text, Dict}
use wani.Protocol.Message.{Bytes, FileEntry, Manifest}
use wani.Client.Transfer.Receive.{Env, load_resume_state}
use wani.Client.Transfer.Send.{mark_all}
use wani.Client.Transfer.Resume.{pending}
use wani.Client.Offer.{effective_dir}
use wani.Cmd.Receive.{Notice, progress_saved}

-- The last thing printed is the advice to resume with the directory below which the files went. The
-- resume state below the
-- destination lists what it listed before and the files of `done` that were not skipped, a first
-- part of the manifest; where a run with the advised destination looks, nothing is listed.
pub record Advised (env : Env) (out_dir : Text) (manifest : Manifest) (fs : Dict Bytes)
    (printed : List Notice) (left : Dict Bytes) : Type 0 where
  pub before : List Notice
  pub advised : Text
  pub done : List FileEntry
  pub missing : List FileEntry
  pub names : advised ≡ effective_dir out_dir manifest
  pub advises : printed ≡ before ++ progress_saved advised ∷ []
  pub splits : manifest.files ≡ done ++ missing
  pub kept :
      load_resume_state env (effective_dir out_dir manifest) left
      ≡ load_resume_state env (effective_dir out_dir manifest) fs
        ++ pending (mark_all [] (load_resume_state env (effective_dir out_dir manifest) fs)) done
  pub lost : load_resume_state env (effective_dir advised manifest) left ≡ []
