-- ===== src/Pull/Verify/Done.antt =====
-- What a `pull` of src/agent_lab/pull.py that returns has done.
use agent_lab.Common.{
  ℕ, ◌+◌, ◌≡◌, refl, sym, ◌∙◌, ap, ap₂, subst, inl, inr, Bool, true, false, ◌&&◌, ◌||◌, List, [],
  ◌∷◌, Option, none, some, String, eq_refl, if◌then◌else◌, All, ltb,
}
use agent_lab.Json.{Value, obj, get}
use agent_lab.Registry.{ModelFile, AreDistinct}
use agent_lab.Pull.{
  File, Files, Memory, known_of, known_sha256, unverified, failed_verification, incomplete,
  not_downloaded, load, Directory, LocalState, downloaded, is_there, is_text, any_failed, all_there,
  any_there, all_known, local_state,
}
use agent_lab.Pull.Records.{load-save}
use agent_lab.Pull.Download.{Network}
use agent_lab.Pull.Verify.{
  Work, check_files, Fetched, fetched, broken_off, fetch_files, Pulled, pulled, no_room, saved,
  conclude, remaining, disk_margin, remove_strays, pull,
}
use agent_lab.Pull.Verify.Known.{known}
use agent_lab.Pull.Verify.Loops.{
  All-Mem, IsTrue, IsLoop, IsVerified, IsSettled, check_files-IsChecked, fetch_files-IsFetched,
}

module _ (sha256 : List ℕ → String) (to_text : Value → String) where
  abbrev pub start : List ModelFile → Directory → Work
  start fs d = record {
    files = d.files;
    partial = remove_strays fs d.partial;
    memory = load to_text d.state;
  }

  abbrev cleaned : Work → Work
  cleaned w = record w { memory = record { verified = w.memory.verified; failed = [] } }

  settled-IsVerified :
      (missing fs : List ModelFile) (checked last : Work)
      → IsLoop sha256 missing checked last
      → All (IsVerified sha256 last) missing
      → All (IsSettled sha256 missing checked) fs
      → All (IsVerified sha256 last) fs
  settled-IsVerified missing [] checked last loop good h = tt
  settled-IsVerified missing (f ∷ fs) checked last loop good (s, h) =
      (one s, settled-IsVerified missing fs checked last loop good h)
    where
      one : IsSettled sha256 missing checked f → IsVerified sha256 last f
      one (inl (k, out)) = loop.same f.name out ∙ k
      one (inr m) = All-Mem (IsVerified sha256 last) f missing good m

  concluded :
      (b : Bool) (ends : Fetched) (checked last : Work) (after : Directory)
      → (if b then (no_room, saved checked) else conclude ends last) ≡ (pulled, after)
      → (ends ≡ fetched []) × (after ≡ saved (cleaned last))
  unfolding conclude
  concluded true ends checked last after e = cc
  concluded false broken_off checked last after e = cc
  concluded false (fetched (n ∷ ns)) checked last after e = cc
  concluded false (fetched []) checked last after e =
      (refl, sym (ap (λ (x : Pulled × Directory). x.1) e))

  -- What a `pull` that returns has done: the last state of its work.
  pull-Done :
      (recheck : Bool) (net : ModelFile → Network) (free : ℕ) (fs : List ModelFile)
      (d after : Directory)
      → AreDistinct fs
      → pull sha256 to_text recheck net free fs d ≡ (pulled, after)
      → (last : Work) × (after ≡ saved (cleaned last))
        × All (IsVerified sha256 last) fs
        × (IsTrue sha256 (start fs d) → IsTrue sha256 last)
  unfolding pull
  pull-Done recheck net free fs d after distinct e =
      let checked = check_files sha256 recheck fs (start fs d) in
      let c = check_files-IsChecked sha256 recheck fs (start fs d) distinct in
      let r = fetch_files sha256 net checked.0 checked.1 in
      let g = fetch_files-IsFetched sha256 net checked.0 checked.1 c.distinct in
      let (all_good, at_last) =
        concluded (ltb free (remaining checked.0 checked.1.partial + disk_margin)) r.0 checked.1 r.1
          after e in
      (
        r.1,
        at_last,
        settled-IsVerified checked.0 fs checked.1 r.1 g.loop (g.verified all_good) c.settled,
        λ t. g.loop.stays_true (c.loop.stays_true t),
      )

  there :
      (v : Option Value) (o : Option File) (sha : String)
      → known_of v o ≡ some sha
      → is_there o ≡ true
  unfolding known_of
  there v (some file) sha e = refl
  there none none sha e = cc
  there (some (obj fs)) none sha e = cc
  there (some _) none sha e = cc

  known-there : (w : Work) (j sha : String) → known w j ≡ some sha → is_there (w.files j) ≡ true
  unfolding known_sha256
  known-there w j sha e = there (get j w.memory.verified) (w.files j) sha e

  any_failed-nil : (fs : List ModelFile) → any_failed fs [] ≡ false
  unfolding any_failed
  any_failed-nil [] = refl
  any_failed-nil (f ∷ fs) = any_failed-nil fs

  verified-there :
      (fs : List ModelFile) (w : Work) → All (IsVerified sha256 w) fs → all_there fs w.files ≡ true
  unfolding all_there
  verified-there [] w h = refl
  verified-there (f ∷ fs) w (k, h) =
      ap₂ (λ (a b : Bool). a && b) (known-there w f.name f.sha256 k) (verified-there fs w h)

  verified-known :
      (fs : List ModelFile) (w : Work)
      → All (IsVerified sha256 w) fs
      → all_known fs w.memory w.files ≡ true
  unfolding all_known
  verified-known [] w h = refl
  verified-known (f ∷ fs) w (k, h) =
      ap₂ (λ (a b : Bool). a && b)
        (ap (λ (o : Option String). is_text o f.sha256) k ∙ eq_refl f.sha256)
        (verified-known fs w h)

  cleaned-IsVerified :
      (fs : List ModelFile) (w : Work)
      → All (IsVerified sha256 w) fs
      → All (IsVerified sha256 (cleaned w)) fs
  unfolding known_sha256
  cleaned-IsVerified [] w h = tt
  cleaned-IsVerified (f ∷ fs) w (k, h) = (k, cleaned-IsVerified fs w h)

  local_state-saved :
      (fs : List ModelFile) (w : Work) (has_partial : Bool)
      → w.memory.failed ≡ []
      → All (IsVerified sha256 w) fs
      → local_state to_text fs (saved w) has_partial ≡ downloaded
  unfolding local_state
  local_state-saved fs w has_partial none_failed h =
      ap (λ (m : Memory). state_of m) (load-save to_text w.memory)
      ∙ ap
          (λ (b : Bool).
            if b
            then failed_verification
            else if all_there fs w.files
            then (if all_known fs w.memory w.files then downloaded else unverified)
            else if any_there fs w.files || has_partial
            then incomplete
            else not_downloaded)
          (ap (any_failed fs) none_failed ∙ any_failed-nil fs)
      ∙ ap₂
          (λ (a b : Bool).
            if a
            then (if b then downloaded else unverified)
            else if any_there fs w.files || has_partial
            then incomplete
            else not_downloaded)
          (verified-there fs w h) (verified-known fs w h)
    where
      state_of : Memory → LocalState
      state_of m =
          if any_failed fs m.failed
          then failed_verification
          else if all_there fs w.files
          then (if all_known fs m w.files then downloaded else unverified)
          else if any_there fs w.files || has_partial
          then incomplete
          else not_downloaded

  -- After a `pull` that returns, of files with different names, `alab models` shows the model as
  -- downloaded, without hashing any file again.
  pub pull-downloaded :
      (recheck : Bool) (net : ModelFile → Network) (free : ℕ) (fs : List ModelFile)
      (d after : Directory) (has_partial : Bool)
      → AreDistinct fs
      → pull sha256 to_text recheck net free fs d ≡ (pulled, after)
      → local_state to_text fs after has_partial ≡ downloaded
  pull-downloaded recheck net free fs d after has_partial distinct e =
      let (last, at_last, verified, _) = pull-Done recheck net free fs d after distinct e in
      ap (λ (x : Directory). local_state to_text fs x has_partial) at_last
      ∙ local_state-saved fs (cleaned last) has_partial refl (cleaned-IsVerified fs last verified)

  -- A file is in place with the hash that the registry lists.
  abbrev pub IsInPlace : Files → ModelFile → Type 0
  IsInPlace files f = (file : File) × (files f.name ≡ some file) × (sha256 file.bytes ≡ f.sha256)

  verified-IsInPlace :
      (fs : List ModelFile) (w : Work)
      → IsTrue sha256 w
      → All (IsVerified sha256 w) fs
      → All (IsInPlace w.files) fs
  verified-IsInPlace [] w t h = tt
  verified-IsInPlace (f ∷ fs) w t (k, h) = (t f.name f.sha256 k, verified-IsInPlace fs w t h)

  -- After a `pull` that returns, of files with different names and with records that were true before,
  -- every file of the registry is in place, and its bytes have the hash that the registry lists.
  pub pull-IsInPlace :
      (recheck : Bool) (net : ModelFile → Network) (free : ℕ) (fs : List ModelFile)
      (d after : Directory)
      → AreDistinct fs
      → IsTrue sha256 (start fs d)
      → pull sha256 to_text recheck net free fs d ≡ (pulled, after)
      → All (IsInPlace after.files) fs
  pull-IsInPlace recheck net free fs d after distinct t e =
      let (last, at_last, verified, keeps) = pull-Done recheck net free fs d after distinct e in
      subst (λ (x : Directory). All (IsInPlace x.files) fs) (sym at_last)
        (verified-IsInPlace fs last (keeps t) verified)
