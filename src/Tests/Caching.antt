-- ===== src/Tests/Caching.antt =====
-- Caches of small tables; the world counts the reads.
use greylist.Base.{
  Bytes, ℕ, ◌+◌, ◌≡◌, refl, List, [], ◌∷◌, some, ok, codes, equal, if◌then◌else◌, ◌==◌, Result, err,
}
use greylist.Caches.{fill_exact, exact_value, fill_patterns, cached_rows}
use greylist.Caches.Exact.{exact_value-filled}
use greylist.Caches.Patterns.{cached_rows-fill_patterns}
use greylist.DataSource.{Row}
use greylist.IpAddress.{Env}
use greylist.Matchers.RegEx.{Posix, c_str, compiled, regex_of}
use greylist.Utils.{show_unsigned, lowercase}
use greylist.Matchers.{Match, Regex, pattern_rows}
use greylist.Triplet.{known, sender_member}

abbrev rows : List Row
rows =
    record {
      numeric = λ i. 0;
      big_numeric = λ i. 0;
      string = λ i. if i == 1 then codes "A@b" else codes "Friend";
    }
    ∷ record {
      numeric = λ i. 0;
      big_numeric = λ i. 0;
      string = λ i. if i == 1 then codes "a@B" else codes "Foe";
    }
    ∷ []

exact_value-filled_example :
    exact_value (codes "a@b") (fill_exact 0 rows (record { data_rows = []; index = [] }))
    ≡ some (codes "friend")
unfolding equal lowercase
exact_value-filled_example = exact_value-filled (codes "a@b") rows

abbrev factory : ℕ → ℕ → Result ℕ × ℕ
factory value reads = (ok value, reads + 1)

abbrev env : Env
env = record { getnameinfo = λ a. record { failure = some (codes "none"); buf = [] }; unset = 0 }

abbrev regex : Regex
regex pattern = ok (equal pattern)

abbrev patterns : Match ℕ
patterns = record {
  ds = record {
    lookup = λ calls w. (ok rows, w);
    insert = λ calls w. (ok tt, w);
    update = λ calls w. (ok tt, w);
  };
  column = codes "pattern";
  member = known sender_member;
  returnfield = codes "comment";
}

cached_rows-fill_patterns_example :
    cached_rows env patterns
      ((equal (codes "A@b"), codes "Friend") ∷ (equal (codes "a@B"), codes "Foe") ∷ [])
    ≡ pattern_rows env regex patterns rows
unfolding fill_patterns
cached_rows-fill_patterns_example =
    cached_rows-fill_patterns env regex patterns rows
      ((equal (codes "A@b"), codes "Friend") ∷ (equal (codes "a@B"), codes "Foe") ∷ []) refl

-- An expression ends at its first NUL, and a `[` alone does not compile.
abbrev literal : Posix Bytes
literal = record {
  regcomp = λ expr. (if equal expr (codes "[") then 7 else 0, expr);
  regexec = λ r s. if equal r s then 0 else 1;
  regerror = λ n. codes "Unmatched [";
}

literal_fails : regex_of literal (codes "[") ≡ err (codes "Regex: Unmatched [(7), [")
unfolding regex_of compiled c_str show_unsigned equal
literal_fails = refl
