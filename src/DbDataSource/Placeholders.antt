-- ===== src/DbDataSource/Placeholders.antt =====
-- The texts of the statements against their arguments.
use greylist.DbDataSource.Marks.{
  Marks-marks, Marks, Marks-append, Marks-plain, Marks-nil, Marked, marks, Plain, PlainCall, each,
  where_marks, value_marks, update_marks, add_call-Marked,
}
use greylist.Base.{
  is_empty, if◌then◌else◌, ◌∙◌, ap, sym, ℕ, ◌≡◌, refl, List, [], ◌∷◌, ◌++◌, append-nil,
  append_assoc, Bytes, codes, arith, All, ◌%◌, ◌^◌,
}
use greylist.DbDataSource.{
  add_value, DbQuery, create_query, add_call, build, select_text, insert_text, update_text,
}
use greylist.DataSource.{
  Call, return_field, where_text, where_number, add_string, add_numeric, add_increment, add_set,
}
use greylist.Utils.{show_unsigned}

-- The argument of a call, and the letter of its placeholder.
abbrev pub argument : Call → List (ℕ × Bytes)
argument (return_field f) = []
argument (where_text f v op) = (b's', v) ∷ []
argument (where_number f v op) = (b'd', show_unsigned v) ∷ []
argument (add_string f v) = (b's', v) ∷ []
argument (add_numeric f v) = (b'd', show_unsigned v) ∷ []
argument (add_increment f v) = (b'd', show_unsigned v) ∷ []
argument (add_set f v) = (b'd', show_unsigned (v % 2 ^ 32)) ∷ []

abbrev pub letters : List (ℕ × Bytes) → List ℕ
letters [] = []
letters ((l, a) ∷ r) = l ∷ letters r

abbrev pub texts : List (ℕ × Bytes) → List Bytes
texts [] = []
texts ((l, a) ∷ r) = a ∷ texts r

abbrev pub arguments : List Call → List (ℕ × Bytes)
arguments [] = []
arguments (c ∷ calls) = argument c ++ arguments calls

-- Which calls make sense for which statement.
abbrev pub IsSelect : Call → Type 0
IsSelect (return_field f) = Unit
IsSelect (where_text f v op) = Unit
IsSelect (where_number f v op) = Unit
IsSelect _ = ⊥

abbrev pub IsInsert : Call → Type 0
IsInsert (add_string f v) = Unit
IsInsert (add_numeric f v) = Unit
IsInsert _ = ⊥

abbrev pub IsChange : Call → Type 0
IsChange (add_increment f v) = Unit
IsChange (add_set f v) = Unit
IsChange _ = ⊥

letters-append : (a b : List (ℕ × Bytes)) → letters (a ++ b) ≡ letters a ++ letters b
letters-append [] b = refl
letters-append ((l, x) ∷ a) b = ap (◌∷◌ l) (letters-append a b)

texts-append : (a b : List (ℕ × Bytes)) → texts (a ++ b) ≡ texts a ++ texts b
texts-append [] b = refl
texts-append ((l, x) ∷ a) b = ap (◌∷◌ x) (texts-append a b)

args-add_call : (c : Call) (q : DbQuery) → (add_call c q).args ≡ q.args ++ texts (argument c)
unfolding add_call add_value
args-add_call (return_field f) q = ground (arith, append-nil q.args)
args-add_call _ q = refl

-- The arguments are those of the calls, in order.
args-build :
    (calls : List Call) (q : DbQuery) → (build calls q).args ≡ q.args ++ texts (arguments calls)
unfolding build
args-build [] q = sym (append-nil q.args)
args-build (c ∷ calls) q =
    args-build calls (add_call c q)
    ∙ ap (λ a. a ++ texts (arguments calls)) (args-add_call c q)
    ∙ append_assoc q.args (texts (argument c)) (texts (arguments calls))
    ∙ ap (λ a. q.args ++ a) (sym (texts-append (argument c) (arguments calls)))

build-Marked :
    (calls : List Call) (q : DbQuery) (ws vs us : List ℕ)
    → All PlainCall calls
    → Marked q ws vs us
    → Marked
        (build calls q)
        (ws ++ each where_marks calls)
        (vs ++ each value_marks calls)
        (us ++ each update_marks calls)
unfolding build
build-Marked [] q ws vs us p m = rw (append-nil ws, append-nil vs, append-nil us) m
build-Marked (c ∷ calls) q ws vs us p m =
    rw
      (
        ← append_assoc ws (where_marks c) (each where_marks calls),
        ← append_assoc vs (value_marks c) (each value_marks calls),
        ← append_assoc us (update_marks c) (each update_marks calls),
      )
      (build-Marked calls (add_call c q) _ _ _ p.1 (add_call-Marked c q ws vs us p.0 m))

create_query-Marked : Marked create_query [] [] []
unfolding create_query
create_query-Marked = record {
  wheres = Marks-nil;
  valued = Marks-nil;
  updates = Marks-nil;
  returns = Marks-nil;
  names = Marks-nil;
}

built-Marked :
    (calls : List Call)
    → All PlainCall calls
    → Marked
        (build calls create_query)
        (each where_marks calls)
        (each value_marks calls)
        (each update_marks calls)
built-Marked calls p = build-Marked calls create_query [] [] [] p create_query-Marked

built-args : (calls : List Call) → (build calls create_query).args ≡ texts (arguments calls)
unfolding create_query
built-args calls = args-build calls create_query

select_letters :
    (calls : List Call) → All IsSelect calls → each where_marks calls ≡ letters (arguments calls)
select_letters [] s = refl
select_letters (return_field f ∷ calls) s = select_letters calls s.1
select_letters (where_text f v op ∷ calls) s = ap (◌∷◌ b's') (select_letters calls s.1)
select_letters (where_number f v op ∷ calls) s = ap (◌∷◌ b'd') (select_letters calls s.1)
select_letters (_ ∷ calls) s = absurd s.0

insert_letters :
    (calls : List Call) → All IsInsert calls → each value_marks calls ≡ letters (arguments calls)
insert_letters [] s = refl
insert_letters (add_string f v ∷ calls) s = ap (◌∷◌ b's') (insert_letters calls s.1)
insert_letters (add_numeric f v ∷ calls) s = ap (◌∷◌ b'd') (insert_letters calls s.1)
insert_letters (_ ∷ calls) s = absurd s.0

select_changes : (calls : List Call) → All IsSelect calls → each update_marks calls ≡ []
select_changes [] s = refl
select_changes (return_field f ∷ calls) s = select_changes calls s.1
select_changes (where_text f v op ∷ calls) s = select_changes calls s.1
select_changes (where_number f v op ∷ calls) s = select_changes calls s.1
select_changes (_ ∷ calls) s = absurd s.0

-- Changes first, then conditions.
update_letters :
    (changes wheres : List Call)
    → All IsChange changes
    → All IsSelect wheres
    → each update_marks (changes ++ wheres) ++ each where_marks (changes ++ wheres)
      ≡ letters (arguments (changes ++ wheres))
update_letters [] wheres c s =
    ap (λ u. u ++ each where_marks wheres) (select_changes wheres s) ∙ select_letters wheres s
update_letters (add_increment f v ∷ changes) wheres c s =
    ap (◌∷◌ b'd') (update_letters changes wheres c.1 s)
update_letters (add_set f v ∷ changes) wheres c s =
    ap (◌∷◌ b'd') (update_letters changes wheres c.1 s)
update_letters (_ ∷ changes) wheres c s = absurd c.0

Marks-returns : (r : Bytes) → Marks r [] → Marks (if is_empty r then codes "COUNT(*)" else r) []
Marks-returns [] h = Marks-plain (codes "COUNT(*)") refl
Marks-returns (c ∷ r) h = h

Marks-where :
    (w : Bytes) (l : List ℕ)
    → Marks w l
    → Marks (if is_empty w then [] else codes "` WHERE (" ++ w ++ codes ")") l
Marks-where [] l h = h
Marks-where (c ∷ w) l h = rw (← append-nil l) (
    Marks-append (codes "` WHERE (" ++ c ∷ w) (codes ")") l []
      (Marks-append (codes "` WHERE (") (c ∷ w) [] l (Marks-plain (codes "` WHERE (") refl) h)
      (Marks-plain (codes ")") refl))

Marks-select :
    (table : Bytes) (q : DbQuery) (ws vs us : List ℕ)
    → Plain table
    → Marked q ws vs us
    → Marks (select_text table q) ws
unfolding select_text
Marks-select table q ws vs us t m =
    let fields = if is_empty q.return_fields then codes "COUNT(*)" else q.return_fields in
    let wheres =
      if is_empty q.where_clause then [] else codes "` WHERE (" ++ q.where_clause ++ codes ")" in
    Marks-append (codes "SELECT " ++ fields ++ codes " FROM `" ++ table) wheres [] ws
      (Marks-append (codes "SELECT " ++ fields ++ codes " FROM `") table [] []
        (Marks-append (codes "SELECT " ++ fields) (codes " FROM `") [] []
          (Marks-append (codes "SELECT ") fields [] [] (Marks-plain (codes "SELECT ") refl)
            (Marks-returns q.return_fields m.returns))
          (Marks-plain (codes " FROM `") refl))
        (Marks-plain table t))
      (Marks-where q.where_clause ws m.wheres)

-- Text, a list of names, text and a text with marks.
Marks-insert :
    (table : Bytes) (q : DbQuery) (ws vs us : List ℕ)
    → Plain table
    → Marked q ws vs us
    → Marks (insert_text table q) (vs ++ [])
unfolding insert_text
Marks-insert table q ws vs us t m =
    let head = codes "INSERT INTO " ++ table ++ codes " (" in
    let names = head ++ q.ins_fields in
    let start = names ++ codes ")  VALUES(" in
    Marks-append (start ++ q.values) (codes ")") vs []
      (Marks-append start q.values [] vs
        (Marks-append names (codes ")  VALUES(") [] []
          (Marks-append head q.ins_fields [] []
            (Marks-append (codes "INSERT INTO " ++ table) (codes " (") [] []
              (Marks-append (codes "INSERT INTO ") table [] []
                (Marks-plain (codes "INSERT INTO ") refl) (Marks-plain table t))
              (Marks-plain (codes " (") refl))
            m.names)
          (Marks-plain (codes ")  VALUES(") refl))
        m.valued)
      (Marks-plain (codes ")") refl)

Marks-changes :
    (table upd : Bytes) (us : List ℕ)
    → Plain table
    → Marks upd us
    → Marks (codes "UPDATE " ++ table ++ codes " SET " ++ upd ++ codes " WHERE(") (us ++ [])
Marks-changes table upd us t m =
    Marks-append (codes "UPDATE " ++ table ++ codes " SET " ++ upd) (codes " WHERE(") us []
      (Marks-append (codes "UPDATE " ++ table ++ codes " SET ") upd [] us
        (Marks-append (codes "UPDATE " ++ table) (codes " SET ") [] []
          (Marks-append (codes "UPDATE ") table [] [] (Marks-plain (codes "UPDATE ") refl)
            (Marks-plain table t))
          (Marks-plain (codes " SET ") refl))
        m)
      (Marks-plain (codes " WHERE(") refl)

Marks-update :
    (table : Bytes) (q : DbQuery) (ws vs us : List ℕ)
    → Plain table
    → Marked q ws vs us
    → Marks (update_text table q) (us ++ [] ++ ws ++ [])
unfolding update_text
Marks-update table q ws vs us t m =
    let head = codes "UPDATE " ++ table ++ codes " SET " ++ q.upd_fields ++ codes " WHERE(" in
    Marks-append (head ++ q.where_clause) (codes ")") (us ++ [] ++ ws) []
      (Marks-append head q.where_clause (us ++ []) ws
        (Marks-changes table q.upd_fields us t m.updates) m.wheres)
      (Marks-plain (codes ")") refl)

-- For return fields and conditions whose names and operators, like the table's name, have no `%`:
-- the text of the SELECT has a `%s` for each text argument and a `%d` for each number, in the
-- order of the conditions, which is the order of the arguments.
pub marks-select_text :
    (table : Bytes) (calls : List Call)
    → Plain table
    → All PlainCall calls
    → All IsSelect calls
    → (marks (select_text table (build calls create_query)) ≡ letters (arguments calls))
      × ((build calls create_query).args ≡ texts (arguments calls))
marks-select_text table calls t p s = (
  Marks-marks (select_text table (build calls create_query)) (each where_marks calls)
        (Marks-select table (build calls create_query) _ _ _ t (built-Marked calls p))
      ∙ select_letters calls s,
  built-args calls,
)

-- For values whose names, like the table's name, have no `%`: the text of the INSERT has a `%s`
-- for each text and a `%d` for each number, in the order of the values, which is the order of the
-- arguments.
pub marks-insert_text :
    (table : Bytes) (calls : List Call)
    → Plain table
    → All PlainCall calls
    → All IsInsert calls
    → (marks (insert_text table (build calls create_query)) ≡ letters (arguments calls))
      × ((build calls create_query).args ≡ texts (arguments calls))
marks-insert_text table calls t p s = (
  Marks-marks (insert_text table (build calls create_query)) (each value_marks calls ++ [])
        (Marks-insert table (build calls create_query) _ _ _ t (built-Marked calls p))
      ∙ append-nil (each value_marks calls)
      ∙ insert_letters calls s,
  built-args calls,
)

-- For changes, and conditions added after them, whose names and operators, like the table's name,
-- have no `%`: the text of the UPDATE has a `%d` or `%s` for each argument, in the order of the
-- arguments.
pub marks-update_text :
    (table : Bytes) (changes wheres : List Call)
    → Plain table
    → All PlainCall (changes ++ wheres)
    → All IsChange changes
    → All IsSelect wheres
    → (marks (update_text table (build (changes ++ wheres) create_query))
        ≡ letters (arguments (changes ++ wheres)))
      × ((build (changes ++ wheres) create_query).args ≡ texts (arguments (changes ++ wheres)))
marks-update_text table changes wheres t p c s = (
  Marks-marks (update_text table (build (changes ++ wheres) create_query))
        (each update_marks (changes ++ wheres) ++ [] ++ each where_marks (changes ++ wheres) ++ [])
        (Marks-update table (build (changes ++ wheres) create_query) _ _ _ t
          (built-Marked (changes ++ wheres) p))
      ∙ append-nil
          (each update_marks (changes ++ wheres) ++ [] ++ each where_marks (changes ++ wheres))
      ∙ ap (λ u. u ++ each where_marks (changes ++ wheres))
          (append-nil (each update_marks (changes ++ wheres)))
      ∙ update_letters changes wheres c s,
  built-args (changes ++ wheres),
)
