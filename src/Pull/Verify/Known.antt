-- ===== src/Pull/Verify/Known.antt =====
-- What the loops of `pull` in src/agent_lab/pull.py do to the files that are known by their hash.
use agent_lab.Common.{
  ℕ, ◌≡◌, refl, sym, ◌∙◌, ap, subst, Bool, true, false, List, Option, none, some, String, str_eq,
  eq_iff, eq_refl, if◌then◌else◌, some_inj,
}
use agent_lab.Json.{get}
use agent_lab.Registry.{ModelFile}
use agent_lab.Pull.{File, Files, update, Memory, known_of, known_sha256, remember, forget}
use agent_lab.Pull.Records.{known-remember, known-forget}
use agent_lab.Pull.Verify.{Work, drop, learn, check_file, place, fail}

abbrev pub known : Work → String → Option String
known w j = known_sha256 w.memory w.files j

-- What is known of a file depends on that file alone.
known-files :
    (m : Memory) (files others : Files) (j : String)
    → files j ≡ others j
    → known_sha256 m files j ≡ known_sha256 m others j
unfolding known_sha256
known-files m files others j e = ap (known_of (get j m.verified)) e

module _ (sha256 : List ℕ → String) where
  -- What is known of a file is true.
  abbrev pub IsTrueAt : Work → String → Type 0
  IsTrueAt w j =
      (sha : String)
      → known w j ≡ some sha
      → (file : File) × (w.files j ≡ some file) × (sha256 file.bytes ≡ sha)

  -- A step that concerns one file: the others are as they were, and what is known stays true.
  pub record IsLocal (name : String) (w next : Work) : Type 0 where
    pub same :
        (j : String)
        → str_eq name j ≡ false
        → (known next j ≡ known w j) × (next.files j ≡ w.files j)
    pub true_at : IsTrueAt w name → IsTrueAt next name

  pub IsLocal-refl : (name : String) (w : Work) → IsLocal name w w
  IsLocal-refl name w = record { same = λ j e. (refl, refl); true_at = λ t. t }

  pub IsLocal-trans :
      (name : String) (u v w : Work) → IsLocal name u v → IsLocal name v w → IsLocal name u w
  IsLocal-trans name u v w a b = record {
    same = λ j e. let (k, f) = a.same j e in let (l, g) = b.same j e in (l ∙ k, g ∙ f);
    true_at = λ t. b.true_at (a.true_at t);
  }

  -- Where all that is known is true, it is true after such a step.
  pub IsLocal-true :
      (name : String) (w next : Work)
      → IsLocal name w next
      → ((j : String) → IsTrueAt w j)
      → (j : String) → IsTrueAt next j
  IsLocal-true name w next l t j = go (str_eq name j) refl
    where
      go : (b : Bool) → str_eq name j ≡ b → IsTrueAt next j
      go true e = subst (IsTrueAt next) ((eq_iff name j).0 e) (l.true_at (t name))
      go false e =
          let (k, f) = l.same j e in
          λ sha known_now.
            let (file, there, right) = t j sha (sym k ∙ known_now) in (file, f ∙ there, right)

  forget-IsLocal :
      (name : String) (w : Work) → IsLocal name w (record w { memory = forget name w.memory })
  forget-IsLocal name w = record {
    same = λ j e. (
      known-forget w.memory w.files name j ∙ ap (λ (b : Bool). if b then none else known w j) e,
      refl,
    );
    true_at = λ t sha e. cc (
      e,
      known-forget w.memory w.files name name
          ∙ ap (λ (b : Bool). if b then none else known w name) (eq_refl name),
    );
  }

  -- Where a name is no other.
  update-other :
      (files : Files) (name j : String) (file : Option File)
      → str_eq name j ≡ false
      → update files name file j ≡ files j
  update-other files name j file e = ap (λ (b : Bool). if b then file else files j) e

  update-same :
      (files : Files) (name : String) (file : Option File) → update files name file name ≡ file
  update-same files name file = ap (λ (b : Bool). if b then file else files name) (eq_refl name)

  drop-IsLocal : (name : String) (w : Work) → IsLocal name w (drop name w)
  unfolding drop
  drop-IsLocal name w = record {
    same = λ j e.
        let other = update-other w.files name j none e in
        (
          known-forget w.memory (update w.files name none) name j
              ∙ ap
                  (λ (b : Bool).
                    if b then none else known_sha256 w.memory (update w.files name none) j)
                  e
              ∙ known-files w.memory (update w.files name none) w.files j other,
          other,
        );
    true_at = λ t sha e. cc (
      e,
      known-forget w.memory (update w.files name none) name name
          ∙ ap
              (λ (b : Bool).
                if b then none else known_sha256 w.memory (update w.files name none) name)
              (eq_refl name),
    );
  }

  remember-IsLocal :
      (name : String) (file : File) (w : Work)
      → w.files name ≡ some file
      → IsLocal name w (record w { memory = remember file name (sha256 file.bytes) w.memory })
        × (known (record w { memory = remember file name (sha256 file.bytes) w.memory }) name
            ≡ some (sha256 file.bytes))
  remember-IsLocal name file w there = (
    record {
      same = λ j e. (
        known-remember w.memory w.files file name (sha256 file.bytes) j there
            ∙ ap (λ (b : Bool). if b then some (sha256 file.bytes) else known w j) e,
        refl,
      );
      true_at = λ t sha e. (file, there, some_inj (sym now ∙ e));
    },
    now,
  )
    where
      now :
          known (record w { memory = remember file name (sha256 file.bytes) w.memory }) name
          ≡ some (sha256 file.bytes)
      now =
          known-remember w.memory w.files file name (sha256 file.bytes) name there
          ∙ ap (λ (b : Bool). if b then some (sha256 file.bytes) else known w name) (eq_refl name)

  learn-IsLocal :
      (recheck : Bool) (name : String) (file : File) (w : Work)
      → w.files name ≡ some file
      → let r = learn sha256 recheck name file w in IsLocal name w r.1 × (known r.1 name ≡ some r.0)
  unfolding learn
  learn-IsLocal recheck name file w there = go recheck (known w name) refl
    where
      found : Option String → String × Work
      found o = elim o [
        | some sha ↦ (sha, w)
        | none ↦ (
          sha256 file.bytes,
          record w { memory = remember file name (sha256 file.bytes) w.memory },
        )
      ]

      go :
          (b : Bool) (o : Option String)
          → known w name ≡ o
          → let r = found (if b then none else o) in
            IsLocal name w r.1 × (known r.1 name ≡ some r.0)
      go true o e = remember-IsLocal name file w there
      go false none e = remember-IsLocal name file w there
      go false (some sha) e = (IsLocal-refl name w, e)

  pub check_file-IsLocal :
      (recheck : Bool) (f : ModelFile) (w : Work)
      → let r = check_file sha256 recheck f w in
        IsLocal f.name w r.1 × ((r.0 ≡ false) → (known r.1 f.name ≡ some f.sha256))
  unfolding check_file
  check_file-IsLocal recheck f w = go (w.files f.name) refl
    where
      checked : String × Work → Bool × Work
      checked (sha, next) = if str_eq sha f.sha256 then (false, next) else (true, drop f.name next)

      good :
          (sha : String) (next : Work) (b : Bool)
          → str_eq sha f.sha256 ≡ b
          → IsLocal f.name w next
          → known next f.name ≡ some sha
          → let r = (if◌then◌else◌ {A = Bool × Work} b (false, next) (true, drop f.name next)) in
            IsLocal f.name w r.1 × ((r.0 ≡ false) → (known r.1 f.name ≡ some f.sha256))
      good sha next true e l k = (l, λ u. k ∙ ap some ((eq_iff sha f.sha256).0 e))
      good sha next false e l k =
          (IsLocal-trans f.name w next (drop f.name next) l (drop-IsLocal f.name next), λ u. cc)

      go :
          (o : Option File)
          → w.files f.name ≡ o
          → let r = (elim o as (λ x. Bool × Work) [
            | none ↦ (true, record w { memory = forget f.name w.memory })
            | some file ↦ checked (learn sha256 recheck f.name file w)
          ]) in
            IsLocal f.name w r.1 × ((r.0 ≡ false) → (known r.1 f.name ≡ some f.sha256))
      go none e = (forget-IsLocal f.name w, λ u. cc)
      go (some file) e =
          let (l, k) = learn-IsLocal recheck f.name file w e in
          good (learn sha256 recheck f.name file w).0 (learn sha256 recheck f.name file w).1
            (str_eq (learn sha256 recheck f.name file w).0 f.sha256) refl l k

  -- Only the files and the verified records matter to what is known.
  pub partial-IsLocal :
      (name : String) (w : Work) (partial : Files) (failed : List String)
      → let next : Work = record {
        files = w.files;
        partial = partial;
        memory = record { verified = w.memory.verified; failed = failed };
      } in
        IsLocal name w next
  unfolding known_sha256
  partial-IsLocal name w partial failed = record { same = λ j e. (refl, refl); true_at = λ t. t }

  pub place-IsLocal :
      (f : ModelFile) (file : File) (w : Work)
      → let r = place sha256 f file w in
        IsLocal f.name w r.1 × ((r.0 ≡ true) → (known r.1 f.name ≡ some f.sha256))
  unfolding place fail
  place-IsLocal f file w = go (str_eq (sha256 file.bytes) f.sha256) refl
    where
      moved : Work
      moved = record {
        files = update w.files f.name (some file);
        partial = update w.partial f.sha256 none;
        memory = w.memory;
      }

      placed : Work
      placed = record moved { memory = remember file f.name (sha256 file.bytes) w.memory }

      there : moved.files f.name ≡ some file
      there = update-same w.files f.name (some file)

      step : IsLocal f.name moved placed × (known placed f.name ≡ some (sha256 file.bytes))
      step = remember-IsLocal f.name file moved there

      moves : IsLocal f.name w placed
      moves = record {
        same = λ j e.
            let other = update-other w.files f.name j (some file) e in
            let (k, g) = step.0.same j e in
            (k ∙ known-files w.memory moved.files w.files j other, g ∙ other);
        true_at = λ t sha e. (file, there, some_inj (sym step.1 ∙ e));
      }

      go :
          (b : Bool)
          → str_eq (sha256 file.bytes) f.sha256 ≡ b
          → let r =
              (if◌then◌else◌ {A = Bool × Work} b
                (true, placed)
                (
                  false,
                  record w {
                    partial = update w.partial f.sha256 none;
                    memory = fail f.name w.memory;
                  },
                )) in
            IsLocal f.name w r.1 × ((r.0 ≡ true) → (known r.1 f.name ≡ some f.sha256))
      go true e = (moves, λ u. step.1 ∙ ap some ((eq_iff (sha256 file.bytes) f.sha256).0 e))
      go false e = (
        partial-IsLocal f.name w (update w.partial f.sha256 none) (fail f.name w.memory).failed,
        λ u. cc,
      )
