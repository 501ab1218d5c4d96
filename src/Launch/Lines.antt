-- ===== src/Launch/Lines.antt =====
-- A log stream logs the same lines however the text is cut into writes.
use mathlib.Core.List.{append_assoc}
use agent_lab.Common.{
  ℕ, ◌≡◌, refl, sym, ap, ◌∙◌, Bool, true, false, List, [], ◌∷◌, ◌++◌, if◌then◌else◌, ◌==◌,
}
use agent_lab.Launch.{newline, before_lines, split_lines, LogStream, log_line, log_lines, write}

-- What a text and one after it are split into, from what each is split into.
joined : List (List ℕ) × List ℕ → List ℕ → List (List ℕ) × List ℕ
joined (lines, rest) more = let (next, last) = split_lines (rest ++ more) in (lines ++ next, last)

split_lines-append : (xs ys : List ℕ) → split_lines (xs ++ ys) ≡ joined (split_lines xs) ys
unfolding split_lines joined
split_lines-append [] ys = refl
split_lines-append (c ∷ xs) ys = go (c == newline) refl (split_lines xs) (split_lines-append xs ys)
  where
    go :
        (b : Bool)
        → (c == newline) ≡ b
        → (first : List (List ℕ) × List ℕ) → split_lines (xs ++ ys) ≡ joined first ys
        → (if b
            then ([] ∷ (split_lines (xs ++ ys)).0, (split_lines (xs ++ ys)).1)
            else before_lines c (split_lines (xs ++ ys)))
          ≡ joined (if b then ([] ∷ first.0, first.1) else before_lines c first) ys
    go true n first e = ap (λ (p : List (List ℕ) × List ℕ). ([] ∷ p.0, p.1)) e
    go false n ([], rest) e =
        ap (before_lines c) e
        ∙ sym (
            ap
              (λ (b : Bool).
                if b
                then ([] ∷ (split_lines (rest ++ ys)).0, (split_lines (rest ++ ys)).1)
                else before_lines c (split_lines (rest ++ ys)))
              n)
    go false n (l ∷ ls, rest) e = ap (before_lines c) e

module _ (strip rstrip : List ℕ → List ℕ) where
  log_lines-append :
      (xs ys : List (List ℕ))
      → log_lines strip rstrip (xs ++ ys) ≡ log_lines strip rstrip xs ++ log_lines strip rstrip ys
  unfolding log_lines
  log_lines-append [] ys = refl
  log_lines-append (line ∷ lines) ys =
      ap (λ t. log_line strip rstrip line ++ t) (log_lines-append lines ys)
      ∙ sym (
          append_assoc (log_line strip rstrip line) (log_lines strip rstrip lines)
            (log_lines strip rstrip ys))

  -- Two writes log the same lines and leave the same buffer as one write of both texts: how the text of
  -- the server is cut into writes makes no difference.
  pub write-append :
      (s : LogStream) (first second : List ℕ)
      → write strip rstrip (write strip rstrip s first) second
        ≡ write strip rstrip s (first ++ second)
  unfolding write joined
  write-append s first second =
      ap (λ (t : List (List ℕ)). as_stream ((again (split_lines (s.buffer ++ first))).1) t)
        (append_assoc s.logged (log_lines strip rstrip lines) (log_lines strip rstrip more)
          ∙ ap (λ t. s.logged ++ t) (sym (log_lines-append lines more)))
      ∙ ap (λ (p : List (List ℕ) × List ℕ). as_stream p.1 (s.logged ++ log_lines strip rstrip p.0))
          (sym (split_lines-append (s.buffer ++ first) second)
            ∙ ap split_lines (append_assoc s.buffer first second))
    where
      as_stream : List ℕ → List (List ℕ) → LogStream
      as_stream buffer logged = record { buffer = buffer; logged = logged }

      again : List (List ℕ) × List ℕ → List (List ℕ) × List ℕ
      again p = split_lines (p.1 ++ second)

      lines : List (List ℕ)
      lines = (split_lines (s.buffer ++ first)).0

      more : List (List ℕ)
      more = (again (split_lines (s.buffer ++ first))).0
