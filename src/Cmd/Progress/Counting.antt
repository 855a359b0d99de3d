-- ===== src/Cmd/Progress/Counting.antt =====
-- cmd/wani-client/main.go: how far calls for one file raise the progress counter.
use wani.Base.{
  ℕ, zero, suc, ◌+◌, ◌≤◌, ◌≡◌, refl, sym, ap, ◌∙◌, inl, inr, Bool, true, false, Bool-cases, List,
  [], ◌∷◌, ◌++◌, Text, text_eq_iff, Dict, Result, ok, err, panic, length, All, arith, if◌then◌else◌,
}
use wani.Base.State.{bind}
use wani.Protocol.Message.{Bytes, FileEntry}
use wani.Client.Transfer.Receive.{Progress, reads, skips}
use wani.Client.Transfer.Send.{first}
use wani.Cmd.Progress.{Counter, next_file, progress, progress_all}

module _ (done : Dict Bool) where
  pub progress_all-append :
      (ps qs : List Progress) (c : Counter)
      → progress_all done (ps ++ qs) c ≡ progress_all done qs (progress_all done ps c)
  unfolding progress_all
  progress_all-append [] qs c = refl
  progress_all-append (p ∷ ps) qs c = progress_all-append ps qs (progress done p c)

  -- Calls for one file.
  abbrev pub Of : Text → List Progress → Type 0
  Of path ps = All (λ p. p.path ≡ path) ps

  skipped :
      (path : Text) (ps : List Progress) (c : Counter)
      → skips done path ≡ true
      → Of path ps
      → progress_all done ps c ≡ c
  unfolding progress_all progress
  skipped path [] c s h = refl
  skipped path (p ∷ ps) c s h = rw (h.0, s) (skipped path ps c s h.1)

  step :
      (p : Progress) (c : Counter)
      → skips done p.path ≡ false
      → ((progress done p c).last_path ≡ p.path)
        × ((progress done p c).idx ≤ c.idx + 1)
        × ((c.last_path ≡ p.path) → (progress done p c).idx ≡ c.idx)
  unfolding progress next_file
  step p c s = rw s (
    ground (arith, text_eq_iff p.path c.last_path),
    ground arith,
    λ e. ground (arith, e, text_eq_iff p.path c.last_path),
  )

  same_file :
      (path : Text) (ps : List Progress) (c : Counter)
      → skips done path ≡ false
      → Of path ps
      → c.last_path ≡ path
      → (progress_all done ps c).idx ≡ c.idx
  unfolding progress_all
  same_file path [] c s h e = refl
  same_file path (p ∷ ps) c s h e =
      let (last, most, same) = step p c (ap (skips done) h.0 ∙ s) in
      same_file path ps (progress done p c) s h.1 (last ∙ h.0) ∙ same (e ∙ sym h.0)

  pub one_file :
      (path : Text) (ps : List Progress) (c : Counter)
      → Of path ps
      → (progress_all done ps c).idx ≤ c.idx + 1
  unfolding progress_all
  one_file path [] c h = omega arith
  one_file path (p ∷ ps) c h = elim (Bool-cases (skips done path)) [
    | inl s ↦ omega (arith, ap (λ d. d.idx) (skipped path (p ∷ ps) c s h))
    | inr s ↦
        let (last, most, same) = step p c (ap (skips done) h.0 ∙ s) in
        omega (arith, most, same_file path ps (progress done p c) s h.1 (last ∙ h.0))
  ]

  -- The files that are left to transfer.
  abbrev pub pending : List FileEntry → ℕ
  pending [] = 0
  pending (e ∷ es) = if skips done e.path then pending es else pending es + 1

  -- The calls of a list that are behind those of another are calls for one file.
  abbrev pub Extends : Text → List Progress → List Progress → Type 0
  Extends path before after = (ps : List Progress) × (after ≡ before ++ ps) × Of path ps

  pub extended :
      (path : Text) (before after : List Progress) (c : Counter)
      → Extends path before after
      → (progress_all done after c).idx ≤ (progress_all done before c).idx + 1
  extended path before after c (ps, e, h) = omega (
    arith,
    one_file path ps (progress_all done before c) h,
    ap (λ d. d.idx) (ap (λ l. progress_all done l c) e ∙ progress_all-append before ps c),
  )

  pub reads-Of : (e : FileEntry) (n : ℕ) (chunks : List Bytes) → Of e.path (reads e n chunks)
  unfolding reads
  reads-Of e n [] = (refl, tt)
  reads-Of e n (b ∷ bs) = (refl, reads-Of e (n + length b) bs)

  pub first-Of : (path : Text) (n : ℕ) (ps : List Progress) → Of path ps → Of path (first n ps)
  first-Of path zero ps h = tt
  first-Of path (suc n) [] h = tt
  first-Of path (suc n) (p ∷ ps) h = (h.0, first-Of path n ps h.1)

  abbrev pub skipped_call : FileEntry → Progress
  skipped_call e = record { path = e.path; written = e.size; total = e.size }

  pub bind-count :
      {W E : Type 0} (shown : W → List Progress) (most n : ℕ) (m : Result E (Unit {0}) × W)
      (f : W → Result E (Unit {0}) × W) (c : Counter)
      → (progress_all done (shown m.1) c).idx ≤ most
      → ((q : W)
          → (progress_all done (shown (f q).1) c).idx ≤ (progress_all done (shown q) c).idx + n)
      → (progress_all done (shown (bind m λ _ q. f q).1) c).idx ≤ most + n
  bind-count shown most n (ok u, q) f c first_part later = omega (arith, first_part, later q)
  bind-count shown most n (err x, q) f c first_part later = omega (arith, first_part)
  bind-count shown most n (panic, q) f c first_part later = omega (arith, first_part)

  -- A call for a file that is skipped does not count.
  pub skipped-count :
      (e : FileEntry) (before : List Progress) (c : Counter)
      → skips done e.path ≡ true
      → (progress_all done (before ++ skipped_call e ∷ []) c).idx ≤ (progress_all done before c).idx
  skipped-count e before c h = omega (
    arith,
    ap (λ d. d.idx) (progress_all-append before (skipped_call e ∷ []) c),
    ap (λ d. d.idx)
        (skipped e.path (skipped_call e ∷ []) (progress_all done before c) h (refl, tt)),
  )
