-- ===== src/Cmd/Progress/Tests.antt =====
-- Tests of the progress counter, and its bound at a transfer of which one file was completed before.
use wani.Base.{◌≡◌, refl, ◌≤◌, ◌+◌, [], ◌∷◌, some, codes, length, lookup, text_eq, insert}
use wani.Client.Transfer.Receive.{receive_files}
use wani.Client.Transfer.Send.{mark_all, send_files}
use wani.Client.Tests.{toy, tree, two_files, good}
use wani.Client.Transfer.Streams.{answered}
use wani.Cmd.Progress.{counter_from, progress, next_file, progress_all}
use wani.Cmd.Progress.Counting.{pending}
use wani.Cmd.Progress.Bounds.{progress_bound}

-- Two reads of one file, a file that was completed, and another file.
count_test :
    let c =
      progress_all
        (mark_all [] (codes "bc" ∷ []))
        (record { path = codes "a"; written = 1; total = 2 }
          ∷ record { path = codes "a"; written = 2; total = 2 }
          ∷ record { path = codes "bc"; written = 2; total = 2 }
          ∷ record { path = codes "d"; written = 0; total = 0 }
          ∷ [])
        (counter_from 1) in
    (c.idx ≡ 3) × (c.bar ≡ some (record { number = 3; name = codes "d"; at = 0; max = 0 }))
unfolding progress_all progress next_file mark_all lookup text_eq insert
count_test = (refl, refl)

progress_bound_example :
    let done = mark_all [] (codes "bc" ∷ []) in
    let s =
      (send_files tree two_files
        (record { status = "ready"; completed = codes "bc" ∷ [] })
        (codes "r")
        (record { opened = []; replies = answered (codes "ok") ∷ []; shown = [] })).1 in
    let r =
      (receive_files toy two_files done
        (codes "d")
        (record { fs = []; streams = good 5 ∷ []; acks = []; shown = [] })).1 in
    ((progress_all done s.shown (counter_from 1)).idx ≤ 1 + pending done two_files.files)
    × ((progress_all done r.shown (counter_from (length done))).idx
        ≤ length done + pending done two_files.files)
progress_bound_example =
    progress_bound tree toy (codes "r") (codes "d") two_files (codes "bc" ∷ []) "ready"
      (answered (codes "ok") ∷ []) (good 5 ∷ []) []
