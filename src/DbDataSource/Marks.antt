-- ===== src/DbDataSource/Marks.antt =====
-- The `%` marks of the texts that a query collects, piece by piece.
use greylist.Base.{
  inr, inl, equal, Bool-cases, sym, ◌∙◌, ap, ℕ, ◌≡◌, refl, Bool, true, false, List, [], ◌∷◌, ◌++◌,
  append-nil, append_assoc, Bytes, codes, arith, count_byte, if◌then◌else◌, ◌==◌, is_empty,
}
use greylist.DbDataSource.{
  add_value, show_unsigned, add_return_field, DbQuery, add_call, joined, quoted,
}
use greylist.Base.Find.{count_byte-append}
use greylist.DataSource.{
  Call, return_field, where_text, where_number, add_string, add_numeric, add_increment, add_set,
}

-- The letters behind the `%` signs of a text; the flag says that a `%` has just been read.
pub marks_from : Bool → Bytes → List ℕ
marks_from b [] = []
marks_from true (c ∷ s) = c ∷ marks_from false s
marks_from false (c ∷ s) = if c == b'%' then marks_from true s else marks_from false s

abbrev pub marks : Bytes → List ℕ
marks = marks_from false

-- A piece of text with these marks, whatever follows it.
abbrev pub Marks : Bytes → List ℕ → Type 0
Marks s l = (t : Bytes) → marks (s ++ t) ≡ l ++ marks t

pub Marks-nil : Marks [] []
Marks-nil t = refl

pub Marks-append :
    (s s' : Bytes) (l l' : List ℕ) → Marks s l → Marks s' l' → Marks (s ++ s') (l ++ l')
Marks-append s s' l l' h h' t =
    ap marks (append_assoc s s' t)
    ∙ h (s' ++ t)
    ∙ ap (λ k. l ++ k) (h' t)
    ∙ sym (append_assoc l l' (marks t))

pub Marks-plain : (s : Bytes) → count_byte b'%' s ≡ 0 → Marks s []
unfolding marks_from
Marks-plain [] h t = refl
Marks-plain (c ∷ s) h t = ground (arith, Marks-plain s (ground arith) t)

Marks-joined :
    (separator old text : Bytes) (l l' : List ℕ)
    → count_byte b'%' separator ≡ 0
    → Marks old l
    → Marks text l'
    → Marks (joined separator old text) (l ++ l')
unfolding marks_from
Marks-joined separator [] text [] l' p h h' = h'
Marks-joined separator [] text (x ∷ l) l' p h h' = absurd (cc (h []))
Marks-joined separator (c ∷ old) text l l' p h h' =
    Marks-append ((c ∷ old) ++ separator) text l l'
      (rw (← append-nil l) (Marks-append (c ∷ old) separator l [] h (Marks-plain separator p))) h'

-- A name without a `%`.
abbrev pub Plain : Bytes → Type 0
Plain s = count_byte b'%' s ≡ 0

-- The names in a call are plain; its value is free.
abbrev pub PlainCall : Call → Type 0
PlainCall (return_field f) = Plain f
PlainCall (where_text f v op) = Plain f × Plain op
PlainCall (where_number f v op) = Plain f × Plain op
PlainCall (add_string f v) = Plain f
PlainCall (add_numeric f v) = Plain f
PlainCall (add_increment f v) = Plain f
PlainCall (add_set f v) = Plain f

-- The marks that a call puts into the WHERE clause, the values and the SET list.
abbrev pub where_marks : Call → List ℕ
where_marks (where_text f v op) = b's' ∷ []
where_marks (where_number f v op) = b'd' ∷ []
where_marks _ = []

abbrev pub value_marks : Call → List ℕ
value_marks (add_string f v) = b's' ∷ []
value_marks (add_numeric f v) = b'd' ∷ []
value_marks _ = []

abbrev pub update_marks : Call → List ℕ
update_marks (add_increment f v) = b'd' ∷ []
update_marks (add_set f v) = b'd' ∷ []
update_marks _ = []

abbrev pub each : (Call → List ℕ) → List Call → List ℕ
each f [] = []
each f (c ∷ calls) = f c ++ each f calls

pub record Marked (q : DbQuery) (ws vs us : List ℕ) : Type 0 where
  pub wheres : Marks q.where_clause ws
  pub valued : Marks q.values vs
  pub updates : Marks q.upd_fields us
  pub returns : Marks q.return_fields []
  pub names : Marks q.ins_fields []

Marks-quoted : (f : Bytes) → Plain f → Marks (quoted f) []
Marks-quoted f p = Marks-plain (quoted f) (omega (arith, p, count_byte-append b'%' f (codes "`")))

Marks-term :
    (f op mark : Bytes) (l : List ℕ)
    → Plain f
    → Plain op
    → Marks mark l
    → Marks (quoted f ++ op ++ mark) l
Marks-term f op mark l p o m =
    Marks-append (quoted f ++ op) mark [] l
      (Marks-append (quoted f) op [] [] (Marks-quoted f p) (Marks-plain op o)) m

Marks-keep : (s : Bytes) (l : List ℕ) → Marks s l → Marks s (l ++ [])
Marks-keep s l h = rw append-nil h

Marks_s : Marks (codes "%s") (b's' ∷ [])
unfolding marks_from
Marks_s t = refl

Marks_d : Marks (codes "%d") (b'd' ∷ [])
unfolding marks_from
Marks_d t = refl

Marks-value :
    (fields values mark : Bytes) (vs l : List ℕ)
    → Marks values vs
    → Marks mark l
    → Marks (if is_empty fields then values ++ mark else values ++ codes "," ++ mark) (vs ++ l)
Marks-value [] values mark vs l h m = Marks-append values mark vs l h m
Marks-value (c ∷ f) values mark vs l h m =
    Marks-append (values ++ codes ",") mark vs l
      (rw (← append-nil vs)
        (Marks-append values (codes ",") vs [] h (Marks-plain (codes ",") refl)))
      m

module _ (q : DbQuery) (ws vs us : List ℕ) (m : Marked q ws vs us) where
  -- A call that adds one condition.
  where-Marked :
      (f val op mark : Bytes) (l : List ℕ)
      → Plain f
      → Plain op
      → Marks mark l
      → Marked
          (record q {
            where_clause = joined (codes " AND ") q.where_clause (quoted f ++ op ++ mark);
            args = q.args ++ val ∷ [];
          })
          (ws ++ l)
          (vs ++ [])
          (us ++ [])
  where-Marked f val op mark l p o h = record {
    wheres =
        Marks-joined (codes " AND ") q.where_clause (quoted f ++ op ++ mark) ws l refl m.wheres
          (Marks-term f op mark l p o h);
    valued = Marks-keep q.values vs m.valued;
    updates = Marks-keep q.upd_fields us m.updates;
    returns = m.returns;
    names = m.names;
  }

  -- One value.
  value-Marked :
      (f val mark : Bytes) (l : List ℕ)
      → Plain f
      → Marks mark l
      → Marked (add_value f mark val q) (ws ++ []) (vs ++ l) (us ++ [])
  unfolding add_value
  value-Marked f val mark l p h = record {
    wheres = Marks-keep q.where_clause ws m.wheres;
    valued = Marks-value q.ins_fields q.values mark vs l m.valued h;
    updates = Marks-keep q.upd_fields us m.updates;
    returns = m.returns;
    names = Marks-joined (codes ",") q.ins_fields (quoted f) [] [] refl m.names (Marks-quoted f p);
  }

  -- One change.
  update-Marked :
      (text val : Bytes)
      → Marks text (b'd' ∷ [])
      → Marked
          (record q {
            upd_fields = joined (codes ",") q.upd_fields text;
            args = q.args ++ val ∷ [];
          })
          (ws ++ [])
          (vs ++ [])
          (us ++ b'd' ∷ [])
  update-Marked text val h = record {
    wheres = Marks-keep q.where_clause ws m.wheres;
    valued = Marks-keep q.values vs m.valued;
    updates = Marks-joined (codes ",") q.upd_fields text us (b'd' ∷ []) refl m.updates h;
    returns = m.returns;
    names = m.names;
  }

  return-Marked :
      (f : Bytes) → Plain f → Marked (add_return_field f q) (ws ++ []) (vs ++ []) (us ++ [])
  unfolding add_return_field
  return-Marked f p = elim (Bool-cases (equal f (codes "*"))) [
    | inl e ↦ rw e (record {
      wheres = Marks-keep q.where_clause ws m.wheres;
      valued = Marks-keep q.values vs m.valued;
      updates = Marks-keep q.upd_fields us m.updates;
      returns = Marks-plain f p;
      names = m.names;
    })
    | inr e ↦ rw e (record {
      wheres = Marks-keep q.where_clause ws m.wheres;
      valued = Marks-keep q.values vs m.valued;
      updates = Marks-keep q.upd_fields us m.updates;
      returns =
          Marks-joined (codes ",") q.return_fields (quoted f) [] [] refl m.returns
            (Marks-quoted f p);
      names = m.names;
    })
  ]

Marks-increment :
    (f : Bytes) → Plain f → Marks (quoted f ++ codes "=" ++ quoted f ++ codes "+%d") (b'd' ∷ [])
Marks-increment f p =
    Marks-append (quoted f ++ codes "=" ++ quoted f) (codes "+%d") [] (b'd' ∷ [])
      (Marks-append (quoted f ++ codes "=") (quoted f) [] []
        (Marks-append (quoted f) (codes "=") [] [] (Marks-quoted f p)
          (Marks-plain (codes "=") refl))
        (Marks-quoted f p))
      (Marks-append (codes "+") (codes "%d") [] (b'd' ∷ []) (Marks-plain (codes "+") refl) Marks_d)

Marks-set : (f : Bytes) → Plain f → Marks (quoted f ++ codes "=%d") (b'd' ∷ [])
Marks-set f p =
    Marks-append (quoted f) (codes "=%d") [] (b'd' ∷ []) (Marks-quoted f p)
      (Marks-append (codes "=") (codes "%d") [] (b'd' ∷ []) (Marks-plain (codes "=") refl) Marks_d)

pub add_call-Marked :
    (c : Call) (q : DbQuery) (ws vs us : List ℕ)
    → PlainCall c
    → Marked q ws vs us
    → Marked (add_call c q) (ws ++ where_marks c) (vs ++ value_marks c) (us ++ update_marks c)
unfolding add_call
add_call-Marked (return_field f) q ws vs us p m = return-Marked q ws vs us m f p
add_call-Marked (where_text f v op) q ws vs us p m =
    where-Marked q ws vs us m f v op (codes "%s") _ p.0 p.1 Marks_s
add_call-Marked (where_number f v op) q ws vs us p m =
    where-Marked q ws vs us m f (show_unsigned v) op (codes "%d") _ p.0 p.1 Marks_d
add_call-Marked (add_string f v) q ws vs us p m =
    value-Marked q ws vs us m f v (codes "%s") _ p Marks_s
add_call-Marked (add_numeric f v) q ws vs us p m =
    value-Marked q ws vs us m f (show_unsigned v) (codes "%d") _ p Marks_d
add_call-Marked (add_increment f v) q ws vs us p m =
    update-Marked q ws vs us m _ _ (Marks-increment f p)
add_call-Marked (add_set f v) q ws vs us p m = update-Marked q ws vs us m _ _ (Marks-set f p)

pub Marks-marks : (s : Bytes) (l : List ℕ) → Marks s l → marks s ≡ l
unfolding marks_from
Marks-marks s l h = ap marks (sym (append-nil s)) ∙ h [] ∙ append-nil l
