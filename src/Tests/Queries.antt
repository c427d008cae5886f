-- ===== src/Tests/Queries.antt =====
-- Statements and their arguments.
use greylist.Utils.{show_unsigned}
use greylist.Base.{◌≡◌, refl, List, [], ◌∷◌, codes}
use greylist.DataSource.{
  Call, return_field, where_text, where_number, add_string, add_numeric, add_increment, add_set,
}
use greylist.DbDataSource.{create_query, build, select_text, insert_text}
use greylist.DbDataSource.Marks.{marks}
use greylist.DbDataSource.Placeholders.{marks-select_text, marks-insert_text}

abbrev wheres : List Call
wheres =
    return_field (codes "id")
    ∷ where_text (codes "sender") (codes "50%s@example.org") (codes "=")
    ∷ where_number (codes "ip64") 192 (codes "=")
    ∷ []

abbrev values : List Call
values = add_string (codes "sender") (codes "%") ∷ add_numeric (codes "ip64") 192 ∷ []

abbrev changes : List Call
changes = add_increment (codes "count") 1 ∷ add_set (codes "uts") 1200 ∷ []

marks-select_text_example :
    (marks (select_text (codes "triplet") (build wheres create_query)) ≡ b's' ∷ b'd' ∷ [])
    × ((build wheres create_query).args ≡ codes "50%s@example.org" ∷ codes "192" ∷ [])
unfolding show_unsigned
marks-select_text_example =
    marks-select_text (codes "triplet") wheres refl (refl, ((refl, refl), ((refl, refl), tt)))
      (tt, (tt, (tt, tt)))

marks-insert_text_example :
    (marks (insert_text (codes "triplet") (build values create_query)) ≡ b's' ∷ b'd' ∷ [])
    × ((build values create_query).args ≡ codes "%" ∷ codes "192" ∷ [])
unfolding show_unsigned
marks-insert_text_example =
    marks-insert_text (codes "triplet") values refl (refl, (refl, tt)) (tt, (tt, tt))
