-- ===== src/System/Invariant.antt =====
-- Properties of the system that the loop over the sections keeps.
use greylist.Base.{
  AllSome, All, some, false, is_empty, Bool-cases, some-injective, subst, zero, suc, inl, inr,
  Option-cases, Bytes, get_elem?, ℕ, Result, ok, err, List, [], ◌∷◌, ◌≡◌, refl,
}
use greylist.System.Config.{config_line, get_val, switch_section_mode, ConfigReader, ConfigWriter}
use greylist.System.Sections.{
  section_at, section_header, read_section, read_and_create, missing_type, clear, create_section,
  sections_loop, section_step, create_sub_section, bad_type, no_handler, sub_section_factory,
  create_typed,
}
use greylist.Tokens.{config_type_tokens, config_sections_tokens}
use greylist.System.Policies.{
  create_server-IsKept, create_database-IsKept, create_greylist-IsKept, create_whitelist-IsKept,
  create_all_match-IsKept, create_match-IsKept, create_db_data_source-IsKept, IsStable,
}
use greylist.System.{OrdMap, exact, pattern, cached_exact, cached_pattern, System}
use greylist.Tokens.Enums.{database, datasource, match, policy, server, SectionToken}
use greylist.TokenList.{find_token, TokenList}
use greylist.Base.State.{Run, IsKept, lift-IsKept, throw-IsKept}

get_elem?-All :
    {A : Type 0} (P : A → Type 0) (xs : List A) (i : ℕ) (a : A)
    → All P xs
    → get_elem? xs i ≡ some a
    → P a
get_elem?-All P [] i a h e = absurd (cc e)
get_elem?-All P (b ∷ xs) zero a h e = subst P (some-injective e) h.0
get_elem?-All P (b ∷ xs) (suc i) a h e = get_elem?-All P xs i a h.1 e

module _ {D : Type 0} {I : System D → Type 0} (stable : IsStable I) where
  abbrev Creates : (Bytes → ConfigWriter → Run (System D) Bytes) → Type 0
  Creates create = (type : Bytes) (cfg : ConfigWriter) → IsKept I (create type cfg)

  sub_section_factory-Creates : (tid : SectionToken) → All Creates (sub_section_factory tid)
  unfolding sub_section_factory
  sub_section_factory-Creates database = tt
  sub_section_factory-Creates datasource = ((λ type. create_db_data_source-IsKept stable), tt)
  sub_section_factory-Creates match = (
    (λ type. create_match-IsKept stable exact),
    (
      (λ type. create_match-IsKept stable pattern),
      (
        (λ type. create_match-IsKept stable cached_exact),
        (
          (λ type. create_match-IsKept stable cached_pattern),
          ((λ type. create_all_match-IsKept stable), tt),
        ),
      ),
    ),
  )
  sub_section_factory-Creates policy =
      (create_whitelist-IsKept stable, (create_greylist-IsKept stable, tt))
  sub_section_factory-Creates server = tt

  create_typed-IsKept :
      (tid : SectionToken) (type_str : Bytes) (types : TokenList) (cfg : ConfigWriter)
      → IsKept I (create_typed tid type_str types cfg)
  unfolding create_typed no_handler bad_type
  create_typed-IsKept tid type_str types cfg = elim (Option-cases (find_token types type_str)) [
    | inl e ↦ rw (e, create_typed) (search (lift-IsKept, throw-IsKept))
    | inr (i, e) ↦ elim (Option-cases (get_elem? (sub_section_factory {D = D} tid) i)) [
      | inl e' ↦ rw (e, e', create_typed) (search (lift-IsKept, throw-IsKept))
      | inr (create, e') ↦
          let h = get_elem?-All Creates _ i create (sub_section_factory-Creates tid) e' in
          rw (e, e', create_typed) (search (lift-IsKept, h))
    ]
  ]

  create_sub_section-IsKept :
      (out_of_range : Bytes) (tid : SectionToken) (cfg : ConfigWriter)
      → IsKept I (create_sub_section out_of_range tid cfg)
  unfolding create_sub_section missing_type
  create_sub_section-IsKept out_of_range tid cfg = elim (Bool-cases (is_empty (get_val 1 cfg))) [
    | inl e ↦ rw (e, create_sub_section) (search (lift-IsKept, throw-IsKept))
    | inr e ↦ elim (Option-cases (config_type_tokens tid)) [
      | inl e' ↦ rw (e, e', create_sub_section) throw-IsKept
      | inr (types, e') ↦
          rw (e, e', create_sub_section) (create_typed-IsKept tid (get_val 1 cfg) types cfg)
    ]
  ]

  module _ (out_of_range : Bytes) (new_database : OrdMap Bytes Bytes → ℕ → Result D) where
    create_section-IsKept :
        (tid : SectionToken) (cfg : ConfigWriter)
        → IsKept I (create_section out_of_range new_database tid cfg)
    unfolding create_section
    create_section-IsKept database cfg = create_database-IsKept stable new_database cfg
    create_section-IsKept datasource cfg = create_sub_section-IsKept out_of_range datasource cfg
    create_section-IsKept match cfg = create_sub_section-IsKept out_of_range match cfg
    create_section-IsKept policy cfg = create_sub_section-IsKept out_of_range policy cfg
    create_section-IsKept server cfg = create_server-IsKept stable cfg

    read_and_create-AllSome :
        (tid : SectionToken) (r : ConfigReader) (s : System D)
        → I s
        → AllSome (λ t. I t.1.1) (read_and_create out_of_range new_database tid r s)
    unfolding read_and_create
    read_and_create-AllSome tid r s i = elim (Option-cases (read_section out_of_range tid r)) [
      | inl e ↦ rw (e, read_and_create) tt
      | inr ((r', err e), e') ↦ rw (e', read_and_create) i
      | inr ((r', ok cfg), e') ↦ rw (e', read_and_create) ((create_section-IsKept tid cfg).at s i)
    ]

    section_step-AllSome :
        (line : Bytes) (r : ConfigReader) (s : System D)
        → I s
        → AllSome (λ t. I t.1.1) (section_step out_of_range new_database line r s)
    unfolding section_step
    section_step-AllSome line r s i = elim (Option-cases (section_header line)) [
      | inl e ↦ rw (e, section_step) (stable.on_messages s _ i)
      | inr (section, e) ↦ elim (Option-cases (find_token config_sections_tokens section)) [
        | inl e' ↦ rw (e, e', section_step) (stable.on_messages s _ i)
        | inr (n, e') ↦ rw (e, e', section_step) (read_and_create-AllSome (section_at n) r s i)
      ]
    ]

    -- The property, before the containers are cleared.
    unfoldable pub Ends : Result (Unit {0}) × System D → Type 0
    Ends (ok u, t) = (s : System D) × I s × (t ≡ clear s)
    Ends (err e, t) = I t

    pub sections_loop-Ends :
        (fuel : ℕ) (r : ConfigReader) (s : System D)
        → I s
        → AllSome Ends (sections_loop out_of_range new_database fuel r s)
    unfolding sections_loop Ends
    sections_loop-Ends zero r s i = tt
    sections_loop-Ends (suc fuel) r s i =
        let r0 = switch_section_mode false r in
        elim (Option-cases (config_line r0).0) [
          | inl e ↦ rw (e, sections_loop) (s, i, refl)
          | inr (line, e) ↦
              let r1 = (config_line r0).1 in
              let kept = section_step-AllSome line r1 s i in
              elim (Option-cases (section_step out_of_range new_database line r1 s)) [
                | inl e' ↦ rw (e, e', sections_loop) tt
                | inr ((err text, (r', s')), e') ↦
                    rw (e, e', sections_loop) (subst (AllSome (λ t. I t.1.1)) e' kept)
                | inr ((ok name, (r', s')), e') ↦
                    rw (e, e', sections_loop)
                      (sections_loop-Ends fuel r' s' (subst (AllSome (λ t. I t.1.1)) e' kept))
              ]
        ]
