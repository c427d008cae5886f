-- ===== src/Matchers/Patterns.antt =====
-- The rows of a `PatternMatch`, in their order.
use greylist.Matchers.{pure, ◌>>◌, on_extra, on_text, Run, on_pattern, Match, Regex, pattern_rows}
use greylist.Base.{
  ap, if◌then◌else◌, ◌∙◌, ◌≡◌, refl, Bool, true, false, List, [], ◌∷◌, ◌++◌, All, Bytes, ok, err,
}
use greylist.Core.{set_comment}
use greylist.DataSource.{Row}
use greylist.IpAddress.{Env}
use greylist.Session.{Session}
use greylist.Triplet.{get_member}

-- The pattern of the row compiles, and answers this on the text.
abbrev pub Answers : Regex → Bytes → Bool → Row → Type 0
Answers regex text answer row =
    (matches : Bytes → Bool) × (regex (row.string 1) ≡ ok matches) × (matches text ≡ answer)

module _ {W : Type 0} (env : Env) (regex : Regex) (m : Match W) (text : Bytes) where
  -- The member's value, on a triplet whose caches it fills no further.
  abbrev pub IsMember : Session W → Type 0
  IsMember s = get_member env m.member s.triplet ≡ (ok text, s.triplet)

  abbrev answered : Bool → Row → Run (Session W) Bool → Run (Session W) Bool
  answered b row rest = if b then (on_extra (set_comment (row.string 2)) >> pure true) else rest

  answered_lem :
      (b : Bool) (row : Row) (rest : Run (Session W) Bool) (s : Session W)
      → answered b row rest s
        ≡ (if b then (ok true, record s { extra = set_comment (row.string 2) s.extra }) else rest s)
  answered_lem true row rest s = refl
  answered_lem false row rest s = refl

  on_pattern-answer :
      (answer : Bool) (row : Row) (rest : Run (Session W) Bool) (s : Session W)
      → IsMember s
      → Answers regex text answer row
      → on_pattern env regex m row rest (regex (row.string 1)) s ≡ (
          if answer
          then (ok true, record s { extra = set_comment (row.string 2) s.extra })
          else rest s)
  unfolding on_pattern
  on_pattern-answer answer row rest s h (f, c, e) =
      ap (λ r. on_pattern env regex m row rest r s) c
      ∙ ap
          (λ r. elim r.0 [
            | ok t ↦ on_text env regex f row rest t (record s { triplet = r.1 })
            | err t ↦ (err t, record s { triplet = r.1 })
          ])
          h
      ∙ ap (λ b. answered b row rest s) e
      ∙ answered_lem answer row rest s

  -- If the member's value is a text and asking for it changes nothing in the triplet, the patterns
  -- of the rows before a row compile and do not match the text, and the row's pattern compiles and
  -- matches it, then the loop returns true with this row's comment, and changes nothing else.
  pub pattern_rows-first :
      (before : List Row) (row : Row) (after : List Row) (s : Session W)
      → IsMember s
      → All (Answers regex text false) before
      → Answers regex text true row
      → pattern_rows env regex m (before ++ row ∷ after) s
        ≡ (ok true, record s { extra = set_comment (row.string 2) s.extra })
  unfolding pattern_rows
  pattern_rows-first [] row after s h b a =
      on_pattern-answer true row (pattern_rows env regex m after) s h a
  pattern_rows-first (r ∷ before) row after s h b a =
      on_pattern-answer false r (pattern_rows env regex m (before ++ row ∷ after)) s h b.0
      ∙ pattern_rows-first before row after s h b.1 a

  -- If the member's value is a text and asking for it changes nothing in the triplet, and the
  -- pattern of every row compiles and does not match the text, then the loop returns false and
  -- changes nothing.
  pub pattern_rows-none :
      (rows : List Row) (s : Session W)
      → IsMember s
      → All (Answers regex text false) rows
      → pattern_rows env regex m rows s ≡ (ok false, s)
  unfolding pattern_rows
  pattern_rows-none [] s h b = refl
  pattern_rows-none (r ∷ rows) s h b =
      on_pattern-answer false r (pattern_rows env regex m rows) s h b.0
      ∙ pattern_rows-none rows s h b.1
