-- ===== src/System/Outcome.antt =====
-- What a configuration leaves in the system.
use greylist.Base.{
  AllSome, All, All-append, none, is_ok, if◌then◌else◌, sym, ap, length, suc, subst, err, equal_iff,
  ok, arith, Result, [], ◌∷◌, some, ◌≡◌, Bytes, ℕ,
}
use greylist.System.Config.{ConfigReader}
use greylist.Base.OrdMap.{find-insert, insert, bytes_key, find, OrdMap}
use greylist.System.Sections.{parse_configuration_sections}
use greylist.System.{System}
use greylist.System.Policies.{IsStable, IsUsual}
use greylist.System.Invariant.{sections_loop-Ends, Ends}

module _ {D : Type 0} where
  IsUsual-IsStable : IsStable (λ (s : System D). All (λ e. IsUsual e.1) s.core)
  IsUsual-IsStable = record {
    on_databases = λ s name db i. i;
    on_datasources = λ s dss i. i;
    on_matchers = λ s mts i. i;
    on_core = λ s m p u i. All-append _ s.core ((m, p) ∷ []) i (u, tt);
    on_settings = λ s settings i. i;
    on_messages = λ s ms i. i;
  }

  insert-find :
      (a b : Bytes) (d e : D) (dbs : OrdMap Bytes D)
      → find a dbs ≡ some d
      → find a (insert b e dbs) ≡ some d
  insert-find a b d e dbs h = ground (arith, find-insert a b e dbs, equal_iff a b)

  -- The databases that are defined, and any others.
  abbrev Defined : OrdMap Bytes D → System D → Type 0
  Defined dbs s =
      (name : Bytes) (db : D) → find name dbs ≡ some db → find name s.databases ≡ some db

  Defined-IsStable : (dbs : OrdMap Bytes D) → IsStable (Defined dbs)
  Defined-IsStable dbs = record {
    on_databases = λ s name db i n d e. insert-find n name d db s.databases (i n d e);
    on_datasources = λ s dss i. i;
    on_matchers = λ s mts i. i;
    on_core = λ s m p u i. i;
    on_settings = λ s settings i. i;
    on_messages = λ s ms i. i;
  }

  module _ (out_of_range : Bytes) (new_database : OrdMap Bytes Bytes → ℕ → Result D) where
    parsed-Ends :
        {I : System D → Type 0} (stable : IsStable I) (r : ConfigReader) (s s' : System D)
        (o : Result (Unit {0}))
        → I s
        → parse_configuration_sections out_of_range new_database r s ≡ some (o, s')
        → Ends stable out_of_range new_database (o, s')
    unfolding parse_configuration_sections
    parsed-Ends stable r s s' o i e =
        subst (AllSome (Ends stable out_of_range new_database)) e
          (sections_loop-Ends stable out_of_range new_database (suc (length r.lines)) r s i)

    -- If every greylist of the core has one of the three modes that have a name, and at most
    -- `default_length` weak bytes, then so has every greylist after `parseConfigurationSections`,
    -- whether it throws or not.
    pub parse_configuration_sections-IsUsual :
        (r : ConfigReader) (s s' : System D) (o : Result (Unit {0}))
        → All (λ e. IsUsual e.1) s.core
        → parse_configuration_sections out_of_range new_database r s ≡ some (o, s')
        → All (λ e. IsUsual e.1) s'.core
    unfolding Ends
    parse_configuration_sections-IsUsual r s s' (ok u) i e =
        let (t, j, e') = parsed-Ends IsUsual-IsStable r s s' (ok u) i e in
        subst (λ t. All (λ e. IsUsual e.1) t.core) (sym e') j
    parse_configuration_sections-IsUsual r s s' (err text) i e =
        parsed-Ends IsUsual-IsStable r s s' (err text) i e

    -- A database that is defined when `parseConfigurationSections` begins is gone if it succeeds,
    -- and still defined, as the same database, if it throws.
    pub parse_configuration_sections-databases :
        (r : ConfigReader) (s s' : System D) (o : Result (Unit {0})) (name : Bytes) (db : D)
        → find name s.databases ≡ some db
        → parse_configuration_sections out_of_range new_database r s ≡ some (o, s')
        → find name s'.databases ≡ (if is_ok o then none else some db)
    unfolding Ends find
    parse_configuration_sections-databases r s s' (ok u) name db f e =
        let (t, j, e') = parsed-Ends (Defined-IsStable s.databases) r s s' (ok u) (λ n d h. h) e in
        ap (λ t. find name t.databases) e'
    parse_configuration_sections-databases r s s' (err text) name db f e =
        parsed-Ends (Defined-IsStable s.databases) r s s' (err text) (λ n d h. h) e name db f
