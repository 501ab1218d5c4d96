-- ===== src/Pull/Verify/Loops.antt =====
-- The two loops of `pull` in src/agent_lab/pull.py over the files of an entry.
use agent_lab.Common.{
  ℕ, ◌≡◌, refl, ◌∙◌, ap₂, subst, ◌⊎◌, inl, inr, Bool, true, false, ◌||◌, List, [], ◌∷◌, Option,
  none, some, String, str_eq, if◌then◌else◌, All, some_inj,
}
use agent_lab.Json.SameBut.{contains, ne_comm}
use agent_lab.Registry.{ModelFile, names, AreDistinct}
use agent_lab.Pull.{File, update}
use agent_lab.Pull.Download.{Network, Ended, complete, refused, download}
use agent_lab.Pull.Verify.{
  Work, check_file, check_files, Fetched, fetched, broken_off, after_file, after_download,
  fetch_file, fetch_files,
}
use agent_lab.Pull.Verify.Known.{
  known, IsTrueAt, IsLocal, IsLocal-true, check_file-IsLocal, place-IsLocal, partial-IsLocal,
}

abbrev pub Mem : ModelFile → List ModelFile → Type 0
Mem f [] = ⊥
Mem f (g ∷ gs) = (g ≡ f) ⊎ Mem f gs

neither : (a b : Bool) → a || b ≡ false → (a ≡ false) × (b ≡ false)
neither true b e = cc
neither false b e = (refl, e)

pub All-Mem :
    (P : ModelFile → Type 0) (f : ModelFile) (fs : List ModelFile) → All P fs → Mem f fs → P f
All-Mem P f [] h m = elim m [ ]
All-Mem P f (g ∷ gs) h (inl e) = subst P e h.0
All-Mem P f (g ∷ gs) h (inr m) = All-Mem P f gs h.1 m

module _ (sha256 : List ℕ → String) where
  abbrev pub IsTrue : Work → Type 0
  IsTrue w = (j : String) → IsTrueAt sha256 w j

  -- A loop over files: the others are known as before, and what is known stays true.
  pub record IsLoop (fs : List ModelFile) (w last : Work) : Type 0 where
    pub same : (j : String) → contains (names fs) j ≡ false → known last j ≡ known w j
    pub stays_true : IsTrue w → IsTrue last

  IsLoop-nil : (w : Work) → IsLoop [] w w
  IsLoop-nil w = record { same = λ j out. refl; stays_true = λ t. t }

  IsLoop-cons :
      (f : ModelFile) (fs : List ModelFile) (w next last : Work)
      → IsLocal sha256 f.name w next
      → IsLoop fs next last
      → IsLoop (f ∷ fs) w last
  IsLoop-cons f fs w next last one rest = record {
    same = λ j out.
        let (this, others) = neither (str_eq f.name j) (contains (names fs) j) out in
        rest.same j others ∙ (one.same j this).0;
    stays_true = λ t. rest.stays_true (IsLocal-true sha256 f.name w next one t);
  }

  -- A loop that ends after its first file.
  IsLoop-end :
      (f : ModelFile) (fs : List ModelFile) (w next : Work)
      → IsLocal sha256 f.name w next
      → IsLoop (f ∷ fs) w next
  IsLoop-end f fs w next one = record {
    same = λ j out. (one.same j (neither (str_eq f.name j) (contains (names fs) j) out).0).0;
    stays_true = IsLocal-true sha256 f.name w next one;
  }

  abbrev pub IsVerified : Work → ModelFile → Type 0
  IsVerified w f = known w f.name ≡ some f.sha256

  -- A file after the first loop: verified and not missing, or missing.
  abbrev pub IsSettled : List ModelFile → Work → ModelFile → Type 0
  IsSettled missing w f =
      (IsVerified w f × (contains (names missing) f.name ≡ false)) ⊎ Mem f missing

  pub record IsChecked (fs missing : List ModelFile) (w last : Work) : Type 0 where
    pub loop : IsLoop fs w last
    pub within : (j : String) → contains (names fs) j ≡ false → contains (names missing) j ≡ false
    pub distinct : AreDistinct missing
    pub settled : All (IsSettled missing last) fs

  IsSettled-cons :
      (f : ModelFile) (missing fs : List ModelFile) (w : Work)
      → contains (names fs) f.name ≡ false
      → All (IsSettled missing w) fs
      → All (IsSettled (f ∷ missing) w) fs
  IsSettled-cons f missing [] w out h = tt
  IsSettled-cons f missing (g ∷ gs) w out (s, h) =
      let (other, rest) = neither (str_eq g.name f.name) (contains (names gs) f.name) out in
      (one s other, IsSettled-cons f missing gs w rest h)
    where
      one : IsSettled missing w g → str_eq g.name f.name ≡ false → IsSettled (f ∷ missing) w g
      one (inr m) other = inr (inr m)
      one (inl (k, o)) other = inl (k, ap₂ (λ (a b : Bool). a || b) (ne_comm g.name f.name other) o)

  pub check_files-IsChecked :
      (recheck : Bool) (fs : List ModelFile) (w : Work)
      → AreDistinct fs
      → let r = check_files sha256 recheck fs w in IsChecked fs r.0 w r.1
  unfolding check_files
  check_files-IsChecked recheck [] w d = record {
    loop = IsLoop-nil w;
    within = λ j out. refl;
    distinct = tt;
    settled = tt;
  }
  check_files-IsChecked recheck (f ∷ fs) w d =
      let (one, found) = check_file-IsLocal sha256 recheck f w in
      go (check_file sha256 recheck f w).0 found one
        (check_files-IsChecked recheck fs (check_file sha256 recheck f w).1 d.1)
    where
      next : Work
      next = (check_file sha256 recheck f w).1

      more : List ModelFile
      more = (check_files sha256 recheck fs next).0

      last : Work
      last = (check_files sha256 recheck fs next).1

      go :
          (miss : Bool)
          → (miss ≡ false → known next f.name ≡ some f.sha256)
          → IsLocal sha256 f.name w next
          → IsChecked fs more next last
          → IsChecked (f ∷ fs) (if miss then f ∷ more else more) w last
      go true found one rest = record {
        loop = IsLoop-cons f fs w next last one rest.loop;
        within = λ j out.
            let (this, others) = neither (str_eq f.name j) (contains (names fs) j) out in
            ap₂ (λ (a b : Bool). a || b) this (rest.within j others);
        distinct = (rest.within f.name d.0, rest.distinct);
        settled = (inr (inl refl), IsSettled-cons f more fs last d.0 rest.settled);
      }
      go false found one rest = record {
        loop = IsLoop-cons f fs w next last one rest.loop;
        within = λ j out. rest.within j (neither (str_eq f.name j) (contains (names fs) j) out).1;
        distinct = rest.distinct;
        settled =
            (inl (rest.loop.same f.name d.0 ∙ found refl, rest.within f.name d.0), rest.settled);
      }

  after_download-IsLocal :
      (f : ModelFile) (how : Ended) (p : Option File) (w : Work)
      → let r = after_download sha256 f how p w in
        IsLocal sha256 f.name w r.1 × ((r.0 ≡ some true) → IsVerified r.1 f)
  unfolding after_download
  after_download-IsLocal f complete (some file) w =
      let (one, good) = place-IsLocal sha256 f file w in (one, λ e. good (some_inj e))
  after_download-IsLocal f complete none w =
      (partial-IsLocal sha256 f.name w (update w.partial f.sha256 none) w.memory.failed, λ e. cc)
  after_download-IsLocal f refused p w =
      (partial-IsLocal sha256 f.name w (update w.partial f.sha256 p) w.memory.failed, λ e. cc)

  pub record IsFetched (fs : List ModelFile) (w : Work) (r : Fetched × Work) : Type 0 where
    pub loop : IsLoop fs w r.1
    pub verified : r.0 ≡ fetched [] → All (IsVerified r.1) fs

  after_file-IsFetched :
      (f : ModelFile) (fs : List ModelFile) (w next : Work) (result : Option Bool)
      (rest : Fetched × Work)
      → contains (names fs) f.name ≡ false
      → IsLocal sha256 f.name w next
      → (result ≡ some true → IsVerified next f)
      → IsFetched fs next rest
      → IsFetched (f ∷ fs) w (after_file f.name result next rest)
  unfolding after_file
  after_file-IsFetched f fs w next none rest out one good more = record {
    loop = IsLoop-end f fs w next one;
    verified = λ e. cc;
  }
  after_file-IsFetched f fs w next (some true) (ends, last) out one good more = record {
    loop = IsLoop-cons f fs w next last one more.loop;
    verified = λ e. (more.loop.same f.name out ∙ good refl, more.verified e);
  }
  after_file-IsFetched f fs w next (some false) (broken_off, last) out one good more = record {
    loop = IsLoop-cons f fs w next last one more.loop;
    verified = λ e. cc;
  }
  after_file-IsFetched f fs w next (some false) (fetched ns, last) out one good more = record {
    loop = IsLoop-cons f fs w next last one more.loop;
    verified = λ e. cc;
  }

  pub fetch_files-IsFetched :
      (net : ModelFile → Network) (fs : List ModelFile) (w : Work)
      → AreDistinct fs
      → IsFetched fs w (fetch_files sha256 net fs w)
  unfolding fetch_files fetch_file
  fetch_files-IsFetched net [] w d = record { loop = IsLoop-nil w; verified = λ e. tt }
  fetch_files-IsFetched net (f ∷ fs) w d =
      let got = download (net f) f.size (w.partial f.sha256) in
      let r = after_download sha256 f got.0 got.1 w in
      let (one, good) = after_download-IsLocal f got.0 got.1 w in
      after_file-IsFetched f fs w r.1 r.0 (fetch_files sha256 net fs r.1) d.0 one good
        (fetch_files-IsFetched net fs r.1 d.1)
