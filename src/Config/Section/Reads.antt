-- ===== src/Config/Section/Reads.antt =====
-- Rules for reads: what a read promises of its value, provided that the section ends with no error.
use agent_lab.Common.{
  ℕ, ◌≤◌, ◌<◌, ◌≡◌, refl, ◌∙◌, ◌^◌, sym, ap, subst, inl, inr, Bool, true, false, not, List, [], ◌∷◌,
  Option, none, some, String, str_eq, if◌then◌else◌, ltb, arith, Bool-cases, some_inj,
}
use agent_lab.Common.Int.{ℤ, pos, negsuc, ◌≤ℤ◌}
use agent_lab.Json.{
  Value, Fields, Float, bool, int, float, str, obj, end, field, finite, nan, inf, get,
}
use agent_lab.Json.SameBut.{contains}
use agent_lab.Gateway.Number.{between, fits_double, is_number}
use agent_lab.Gateway.Options.Numbers.{InRange}
use agent_lab.Config.Size.{Python, Parsed, bytes, invalid, too_large, parse_size}
use agent_lab.Config.Section.{
  Section, Problem, Read, ◌>>=◌, pure, get_field, fail, integer, check_int, number, check_number,
  size, check_size, string, check_text, finish, unknown_fields, open_section, boolean, check_flag,
  keep_if, give, below, above,
}

-- A read never takes an error back. From a section with a table, and where it ends with no error,
-- its value is good.
pub record Reads {A : Type 0} (m : Read A) (P : A → Type 0) : Type 0 where
  pub keeps : (s : Section) (a : A) (t : Section) → m s ≡ some (a, t) → t.valid ≡ s.valid
  pub grows :
      (s : Section) (a : A) (t : Section) → m s ≡ some (a, t) → t.errors ≡ [] → s.errors ≡ []
  pub good :
      (s : Section) (a : A) (t : Section) → s.valid ≡ true → m s ≡ some (a, t) → t.errors ≡ [] → P a

pub Reads-pure : {A : Type 0} {P : A → Type 0} (a : A) → P a → Reads (pure a) P
Reads-pure {A} {P} a p = record {
  keeps = λ s b t e. ground arith;
  grows = λ s b t e clean. ground arith;
  good = λ s b t v e clean. subst P (ap (λ (x : A × Section). x.0) (some_inj e)) p;
}

Reads-none : {A : Type 0} {P : A → Type 0} → Reads {A = A} (λ s. none) P
Reads-none = record {
  keeps = λ s b t e. cc;
  grows = λ s b t e clean. cc;
  good = λ s b t v e clean. cc;
}

module _ {A B : Type 0} {P : A → Type 0} {Q : B → Type 0} (m : Read A) (f : A → Read B)
    (r : Reads m P) (k : (a : A) → Reads (f a) (λ b. P a → Q b)) where
  -- The section between the two reads.
  between_reads :
      (s : Section) (b : B) (t : Section) (o : Option (A × Section))
      → m s ≡ o
      → (elim o [ none ↦ none | some (a, u) ↦ f a u ]) ≡ some (b, t)
      → (a : A) × (u : Section) × (m s ≡ some (a, u)) × (f a u ≡ some (b, t))
  between_reads s b t none o e = cc
  between_reads s b t (some (a, u)) o e = (a, u, o, e)

  -- A block: the rest may use what the first read promises.
  pub Reads->>= : Reads (m >>= f) Q
  Reads->>= = record {
    keeps = λ s b t e.
        let (a, u, e₁, e₂) = between_reads s b t (m s) refl e in
        (k a).keeps u b t e₂ ∙ r.keeps s a u e₁;
    grows = λ s b t e clean.
        let (a, u, e₁, e₂) = between_reads s b t (m s) refl e in
        r.grows s a u e₁ ((k a).grows u b t e₂ clean);
    good = λ s b t v e clean.
        let (a, u, e₁, e₂) = between_reads s b t (m s) refl e in
        (k a).good u b t (r.keeps s a u e₁ ∙ v) e₂ clean
          (r.good s a u v e₁ ((k a).grows u b t e₂ clean));
  }

module _ {A : Type 0} {P : A → Type 0} (key : String) (check : Option Value → Read A)
    (present : (w : Value) → Reads (check (some w)) P)
    (absent : (s : Section) (a : A) (t : Section) → check none s ≡ some (a, t) → t ≡ s) where
  abbrev read : Read A
  read s = let (v, u) = get_field key s in check v u

  field-keeps :
      (s : Section) (a : A) (t : Section) (o : Option Value)
      → get key s.table ≡ o
      → read s ≡ some (a, t)
      → t.valid ≡ s.valid
  unfolding get_field fail
  field-keeps s a t none o e =
      ap (λ (x : Section). x.valid) (absent _ a t (rw (o, get_field) at e)) ∙ ground arith
  field-keeps s a t (some w) o e =
      (present w).keeps (record s { seen = key ∷ s.seen }) a t (rw (o, get_field) at e)

  field-grows :
      (s : Section) (a : A) (t : Section) (o : Option Value)
      → get key s.table ≡ o
      → read s ≡ some (a, t)
      → t.errors ≡ []
      → s.errors ≡ []
  unfolding get_field fail
  field-grows s a t none o e clean =
      ground (arith, ap (λ (x : Section). x.errors) (absent _ a t (rw (o, get_field) at e)))
  field-grows s a t (some w) o e clean =
      (present w).grows (record s { seen = key ∷ s.seen }) a t (rw (o, get_field) at e) clean

  field-good :
      (s : Section) (a : A) (t : Section) (o : Option Value)
      → get key s.table ≡ o
      → s.valid ≡ true
      → read s ≡ some (a, t)
      → t.errors ≡ []
      → P a
  unfolding get_field fail
  field-good s a t none o v e clean =
      cc (clean, ap (λ (x : Section). x.errors) (absent _ a t (rw (o, v, get_field) at e)))
  field-good s a t (some w) o v e clean =
      (present w).good (record s { seen = key ∷ s.seen }) a t v (rw (o, get_field) at e) clean

  Reads-field : Reads (λ s. let (v, u) = get_field key s in check v u) P
  Reads-field = record {
    keeps = λ s a t e. field-keeps s a t (get key s.table) refl e;
    grows = λ s a t e clean. field-grows s a t (get key s.table) refl e clean;
    good = λ s a t v e clean. field-good s a t (get key s.table) refl v e clean;
  }

abbrev pub AtLeast : Option ℤ → ℤ → Type 0
AtLeast none n = Unit {0}
AtLeast (some low) n = low ≤ℤ n

abbrev pub AtMost : Option ℤ → ℤ → Type 0
AtMost none n = Unit {0}
AtMost (some high) n = n ≤ℤ high

not_below : (low : Option ℤ) (n : ℤ) → below low n ≡ false → AtLeast low n
unfolding below
not_below none n e = tt
not_below (some low) n e = ground arith

not_above : (high : Option ℤ) (n : ℤ) → above high n ≡ false → AtMost high n
unfolding above
not_above none n e = tt
not_above (some high) n e = ground arith

-- A value that stays is as tested.
keep_if-Reads :
    {A : Type 0} {P : A → Type 0} (fine : Bool) (key : String) (a : A)
    → (fine ≡ true → P a)
    → Reads (keep_if fine key a) P
unfolding keep_if fail
keep_if-Reads {A} {P} true key a p = Reads-pure a (p refl)
keep_if-Reads {A} {P} false key a p = record {
  keeps = λ s b t e. ground arith;
  grows = λ s b t e clean. ground arith;
  good = λ s b t v e clean. ground arith;
}

give-Reads : {A : Type 0} {P : A → Type 0} (key : String) (a : A) → Reads (give key a) P
unfolding give fail
give-Reads key a = record {
  keeps = λ s b t e. ground arith;
  grows = λ s b t e clean. ground arith;
  good = λ s b t v e clean. ground arith;
}

present_int :
    (key : String) (low high : Option ℤ) (w : Value)
    → Reads (check_int key low high (some w)) (λ n. AtLeast low n × AtMost high n)
unfolding check_int
present_int key low high (int n) =
    Reads->>= {P = AtLeast low} (keep_if (not (below low n)) key n)
      (λ m. keep_if (not (above high m)) key m)
      (keep_if-Reads (not (below low n)) key n (λ e. not_below low n (ground arith)))
      λ m. keep_if-Reads (not (above high m)) key m (λ e p. (p, not_above high m (ground arith)))
present_int key low high _ = give-Reads key (pos 0)

same_state : {A : Type 0} (a b : A) (s t : Section) → pure a s ≡ some (b, t) → t ≡ s
same_state {A} a b s t e = ap (λ (x : A × Section). x.1) (some_inj (sym e))

-- A whole number in range.
pub integer-Reads :
    (key : String) (low high : Option ℤ)
    → Reads (integer key low high) (λ n. AtLeast low n × AtMost high n)
unfolding integer check_int
integer-Reads key low high =
    Reads-field key (check_int key low high) (present_int key low high)
      (λ s a t e. same_state (pos 0) a s t e)

present_text :
    (key : String) (check : String → Bool) (w : Value)
    → Reads (check_text key check (some w)) (λ t. check t ≡ true)
unfolding check_text
present_text key check (str t) = elim (Bool-cases (str_eq t "")) [
  | inl e ↦ rw e (give-Reads key "")
  | inr e ↦ rw e (keep_if-Reads (check t) key t (λ c. c))
]
present_text key check _ = give-Reads key ""

-- A text that passes its check.
pub string-Reads :
    (key : String) (check : String → Bool) → Reads (string key check) (λ t. check t ≡ true)
unfolding string check_text
string-Reads key check =
    Reads-field key (check_text key check) (present_text key check)
      (λ s a t e. same_state "" a s t e)

present_flag : (key : String) (w : Value) → Reads (check_flag key (some w)) (λ b. Unit {0})
unfolding check_flag
present_flag key (bool b) = Reads-pure b tt
present_flag key _ = give-Reads key false

pub boolean-Reads : (key : String) → Reads (boolean key) (λ b. Unit {0})
unfolding boolean check_flag
boolean-Reads key =
    Reads-field key (check_flag key) (present_flag key) (λ s a t e. same_state false a s t e)

module _ (py : Python) where
  present_size : (key : String) (w : Value) → Reads (check_size py key (some w)) (λ n. 0 < n)
  unfolding check_size
  present_size key (str text) = go (parse_size py text)
    where
      go :
          (p : Parsed)
          → Reads
              (λ s. elim p [
                | bytes n ↦ keep_if (ltb 0 n) key n s
                | invalid ↦ give key 0 s
                | too_large ↦ none
              ])
              (λ n. 0 < n)
      go (bytes n) = keep_if-Reads (ltb 0 n) key n (λ e. ground arith)
      go invalid = give-Reads key 0
      go too_large = Reads-none
  present_size key _ = give-Reads key 0

  -- A positive size.
  pub size-Reads : (key : String) → Reads (size py key) (λ n. 0 < n)
  unfolding size check_size
  size-Reads key =
      Reads-field key (check_size py key) (present_size key) (λ s a t e. same_state 0 a s t e)

  -- Python converts a small whole number exactly.
  abbrev pub ConvertsSmall : Type 0
  ConvertsSmall = (n : ℕ) → n ≤ 2 ^ 53 → py.int_to_float (pos n) ≡ finite (pos n) 0

  module _ (exact : ConvertsSmall) (key : String) (low high : ℕ) (small : high ≤ 2 ^ 53) where
    converted :
        (n : ℤ)
        → between (pos low) (pos high) (int n) ≡ true
        → InRange (pos low) (pos high) (float (py.int_to_float n))
    unfolding between is_number
    converted (pos n) e = rw (exact n (ground (arith, small))) (refl, ground arith)
    converted (negsuc n) e = ground arith

    is_finite :
        (f : Float)
        → between (pos low) (pos high) (float f) ≡ true
        → InRange (pos low) (pos high) (float f)
    unfolding between is_number
    is_finite (finite m k) e = (refl, e)
    is_finite nan e = cc
    is_finite (inf b) e = cc

    present_number :
        (w : Value)
        → Reads
            (check_number py key (pos low) (pos high) (some w))
            (λ f. InRange (pos low) (pos high) (float f))
    unfolding check_number
    present_number (int n) = go (fits_double n)
      where
        go :
            (fits : Bool)
            → Reads
                (λ s.
                  if fits
                  then keep_if (between (pos low) (pos high) (int n)) key (py.int_to_float n) s
                  else none)
                (λ f. InRange (pos low) (pos high) (float f))
        go true =
            keep_if-Reads (between (pos low) (pos high) (int n)) key (py.int_to_float n)
              (converted n)
        go false = Reads-none
    present_number (float f) =
        keep_if-Reads (between (pos low) (pos high) (float f)) key f (is_finite f)
    present_number _ = give-Reads key _

    -- A finite number in range.
    pub number-Reads :
        Reads (number py key (pos low) (pos high)) (λ f. InRange (pos low) (pos high) (float f))
    unfolding number check_number
    number-Reads =
        Reads-field key (check_number py key (pos low) (pos high)) present_number
          (λ s a t e. same_state (finite (pos 0) 0) a s t e)

unknown_fields-grows :
    (name : String) (seen : List String) (fs : Fields) (errors : List Problem)
    → unknown_fields name seen fs errors ≡ []
    → errors ≡ []
unfolding unknown_fields
unknown_fields-grows name seen end errors e = e
unknown_fields-grows name seen (field k v rest) errors e =
    let e' = unknown_fields-grows name seen rest _ e in
    elim (Bool-cases (contains seen k)) [ inl c ↦ rw c at e' | inr c ↦ cc (rw c at e') ]

-- A section that finishes with no error had none.
pub finish-grows : (s : Section) → finish s ≡ [] → s.errors ≡ []
unfolding finish
finish-grows s e = unknown_fields-grows s.name s.seen s.table s.errors e

-- A section that opens with no error is a table, and there was none before.
pub open_section-clean :
    (name : String) (o : Option Value) (errors : List Problem)
    → (open_section name o errors).errors ≡ []
    → ((open_section name o errors).valid ≡ true) × (errors ≡ [])
unfolding open_section
open_section-clean name (some (obj fs)) errors e = (refl, e)
open_section-clean name _ errors e = cc
