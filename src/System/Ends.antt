-- ===== src/System/Ends.antt =====
-- The lines that the loop over the sections uses up.
use greylist.Tokens.Enums.{SectionToken}
use greylist.Base.{
  Returns, some_value, ap, Result-cases, ◌∙◌, false, true, some, subst, Result, length, Bytes, ℕ,
  zero, suc, ◌≤◌, ◌<◌, ◌≡◌, List, [], ◌∷◌, arith, Option-cases, inl, inr,
}
use greylist.System.Config.{
  config_line-shorter, no_values, config_writer, switch_section_mode, config_line-left,
  config_reader, config_line, ConfigReader,
}
use greylist.Tokens.{config_tokens, config_sections_tokens}
use greylist.System.Sections.{
  section_at, section_header, read_and_create, section_step, parse_configuration_sections,
  sections_loop, read_section,
}
use greylist.TokenList.{find_token}
use greylist.System.{System}
use greylist.Base.OrdMap.{OrdMap}
use greylist.Parser.Loop.{Delivers, stop, more, delivery, parse-Delivers}

Delivers-shorter :
    (r' r : ConfigReader) (lines : List Bytes)
    → Delivers config_reader r' r lines
    → length r'.lines ≤ length r.lines
Delivers-shorter r' r [] (stop e e') =
    subst (λ t. length t.lines ≤ length r.lines) e' (config_line-shorter r)
Delivers-shorter r' r (line ∷ lines) (more e d) =
    omega (arith, config_line-left r line e, Delivers-shorter r' (config_line r).1 lines d)

read_section-Returns :
    (out_of_range : Bytes) (tid : SectionToken) (r : ConfigReader)
    → Returns (λ t. length t.0.lines ≤ length r.lines) (read_section out_of_range tid r)
unfolding read_section
read_section-Returns out_of_range tid r =
    let r0 = switch_section_mode true r in
    let (lines, r', d) =
      delivery config_writer (config_tokens tid) true config_reader (suc (length r.lines)) r0
        (omega arith) in
    rw
      (
        parse-Delivers config_writer (config_tokens tid) true config_reader r0 r' lines no_values d,
        read_section,
      )
      (Delivers-shorter r' r0 lines d)

module _ {D : Type 0} (out_of_range : Bytes)
    (new_database : OrdMap Bytes Bytes → ℕ → Result D) where
  read_and_create-Returns :
      (tid : SectionToken) (r : ConfigReader) (s : System D)
      → Returns
          (λ t. length t.1.0.lines ≤ length r.lines)
          (read_and_create out_of_range new_database tid r s)
  unfolding read_and_create
  read_and_create-Returns tid r s =
      let ((r', o), e, h) =
        some_value (λ t. length t.0.lines ≤ length r.lines) (read_section out_of_range tid r)
          (read_section-Returns out_of_range tid r) in
      elim (Result-cases o) [
        | inl (cfg, e') ↦ rw (e ∙ ap (λ o. some (r', o)) e', read_and_create) h
        | inr (t, e') ↦ rw (e ∙ ap (λ o. some (r', o)) e', read_and_create) h
      ]

  section_step-Returns :
      (line : Bytes) (r : ConfigReader) (s : System D)
      → Returns
          (λ t. length t.1.0.lines ≤ length r.lines)
          (section_step out_of_range new_database line r s)
  unfolding section_step
  section_step-Returns line r s = elim (Option-cases (section_header line)) [
    | inl e ↦ rw (e, section_step) (omega arith)
    | inr (section, e) ↦ elim (Option-cases (find_token config_sections_tokens section)) [
      | inl e' ↦ rw (e, e', section_step) (omega arith)
      | inr (n, e') ↦ rw (e, e', section_step) (read_and_create-Returns (section_at n) r s)
    ]
  ]

  sections_loop-Returns :
      (fuel : ℕ) (r : ConfigReader) (s : System D)
      → length r.lines < fuel
      → Returns (λ t. Unit {0}) (sections_loop out_of_range new_database fuel r s)
  unfolding sections_loop
  sections_loop-Returns zero r s h = elim h [ ]
  sections_loop-Returns (suc fuel) r s h =
      let r0 = switch_section_mode false r in
      elim (Option-cases (config_line r0).0) [
        | inl e ↦ rw (e, sections_loop) tt
        | inr (line, e) ↦
            let ((o, (r', s')), e', l) =
              some_value (λ t. length t.1.0.lines ≤ length (config_line r0).1.lines)
                (section_step out_of_range new_database line (config_line r0).1 s)
                (section_step-Returns line (config_line r0).1 s) in
            elim (Result-cases o) [
              | inl (name, e2) ↦
                  rw (e, e' ∙ ap (λ o. some (o, (r', s'))) e2, sections_loop)
                    (sections_loop-Returns fuel r' s' (omega (arith, config_line-left r0 line e)))
              | inr (text, e2) ↦ rw (e, e' ∙ ap (λ o. some (o, (r', s'))) e2, sections_loop) tt
            ]
      ]

  -- `parseConfigurationSections` returns for every configuration, every state of the system and
  -- every constructor of databases: its fuel, one more than the number of lines, is enough.
  pub parse_configuration_sections_returns :
      (r : ConfigReader) (s : System D)
      → (t : Result (Unit {0}) × System D) × (parse_configuration_sections out_of_range new_database
            r s
          ≡ some t)
  unfolding parse_configuration_sections
  parse_configuration_sections_returns r s =
      let (t, e, u) =
        some_value _ _ (sections_loop-Returns (suc (length r.lines)) r s (omega arith)) in
      (t, e)
