-- ===== src/Container/Declaration/Sound.antt =====
-- Which sources name a runtime, said without the code of src/containers.c.
use plcontainer.Common.{
  ℕ, suc, ◌≤◌, ◌≡◌, refl, ap, inl, inr, true, some, none, Option, List, [], ◌∷◌, ◌++◌, append_assoc,
  length, ◌==◌, ==_iff, ltb, ltb_false→le, subst, Bool-cases, arith,
}
use plcontainer.Container.Declaration.{
  isspace, isblank, ends_line, check_runtime_id, runtime_id, refused, no_hash, no_colon, too_long,
  illegal_character, runtime_id_max_length, container_text, skip, after_text, trim_end, read_line,
  take_id, parse_line, parse_id, parse_colon, parse_container, parse_hash, parse_container_meta,
}
use plcontainer.Container.Declaration.Regex.{Matches, runtime_id_regex, check_runtime_id-Matches}
use plcontainer.Container.Declaration.Pieces.{
  Each, skip_split, after_text_split, read_line_split, trim_end_split,
}

-- White space, "#container:" with blanks within, the id, blanks, the end of the line, the code.
pub record Declares (source id : List ℕ) : Type 0 where
  pub spaces : List ℕ
  pub gap_1 : List ℕ
  pub gap_2 : List ℕ
  pub gap_3 : List ℕ
  pub trail : List ℕ
  pub ending : ℕ
  pub code : List ℕ
  pub text :
      source
      ≡ spaces
        ++ b'#'
          ∷ (gap_1
              ++ (container_text ++ (gap_2 ++ b':' ∷ (gap_3 ++ (id ++ (trail ++ ending ∷ code))))))
  pub spaces_blank : Each isspace spaces
  pub gap_1_blank : Each isblank gap_1
  pub gap_2_blank : Each isblank gap_2
  pub gap_3_blank : Each isblank gap_3
  pub trail_blank : Each isblank trail
  pub ending_ends : ends_line ending ≡ true
  pub id_matches : Matches runtime_id_regex id
  pub id_fits : length id ≤ 63

module _ {id : List ℕ} where
  take_id_back :
      (l : List ℕ)
      → take_id l ≡ runtime_id id
      → (l ≡ id) × (check_runtime_id id ≡ true) × (length id ≤ 63)
  unfolding take_id
  take_id_back [] h = cc
  take_id_back (c ∷ l) h = elim (Bool-cases (ltb runtime_id_max_length (suc (length (c ∷ l))))) [
    | inl e ↦ cc (let bad : refused too_long ≡ runtime_id id = rw e at h in bad)
    | inr e ↦ elim (Bool-cases (check_runtime_id (c ∷ l))) [
      | inl f ↦
          let same : c ∷ l ≡ id =
            cc (let p : runtime_id (c ∷ l) ≡ runtime_id id = rw (e, f) at h in p) in
          (
            same,
            subst (λ i. check_runtime_id i ≡ true) same f,
            omega (arith, ap length same, ltb_false→le _ _ e),
          )
      | inr f ↦ cc (let bad : refused illegal_character ≡ runtime_id id = rw (e, f) at h in bad)
    ]
  ]

  parse_line_back :
      (o : Option (List ℕ))
      → parse_line o ≡ runtime_id id
      → (line : List ℕ) × (o ≡ some line) × (take_id (trim_end line) ≡ runtime_id id)
  unfolding parse_line
  parse_line_back none h = cc
  parse_line_back (some line) h = (line, refl, h)

  parse_id_back :
      (s : List ℕ) → parse_id s ≡ runtime_id id → parse_line (read_line s) ≡ runtime_id id
  unfolding parse_id
  parse_id_back [] h = cc
  parse_id_back (c ∷ s) h = h

  parse_colon_back :
      (s : List ℕ)
      → parse_colon s ≡ runtime_id id
      → (rest : List ℕ) × (s ≡ b':' ∷ rest) × (parse_id (skip isblank rest) ≡ runtime_id id)
  unfolding parse_colon
  parse_colon_back [] h = cc
  parse_colon_back (c ∷ s) h = elim (Bool-cases (c == b':')) [
    | inl e ↦ (s, ap (λ (d : ℕ). d ∷ s) ((==_iff c b':').0 e), rw e at h)
    | inr e ↦ cc (let bad : refused no_colon ≡ runtime_id id = rw e at h in bad)
  ]

  parse_container_back :
      (o : Option (List ℕ))
      → parse_container o ≡ runtime_id id
      → (rest : List ℕ) × (o ≡ some rest) × (parse_colon (skip isblank rest) ≡ runtime_id id)
  unfolding parse_container
  parse_container_back none h = cc
  parse_container_back (some rest) h = (rest, refl, h)

  parse_hash_back :
      (s : List ℕ)
      → parse_hash s ≡ runtime_id id
      → (rest : List ℕ) × (s ≡ b'#' ∷ rest)
        × (parse_container (after_text container_text (skip isblank rest)) ≡ runtime_id id)
  unfolding parse_hash
  parse_hash_back [] h = cc
  parse_hash_back (c ∷ s) h = elim (Bool-cases (c == b'#')) [
    | inl e ↦ (s, ap (λ (d : ℕ). d ∷ s) ((==_iff c b'#').0 e), rw e at h)
    | inr e ↦ cc (let bad : refused no_hash ≡ runtime_id id = rw e at h in bad)
  ]

  last_part :
      (rest : List ℕ)
      → parse_id rest ≡ runtime_id id
      → (trail : List ℕ) × (ending : ℕ) × (code : List ℕ) × (rest ≡ id ++ (trail ++ ending ∷ code))
        × Each isblank trail
        × (ends_line ending ≡ true)
        × Matches runtime_id_regex id
        × (length id ≤ 63)
  last_part rest h =
      let (line, read, taken) = parse_line_back (read_line rest) (parse_id_back rest h) in
      let (ending, code, split, ends) = read_line_split rest line read in
      let (trail, same, blank) = trim_end_split line in
      let (is_id, good, fits) = take_id_back (trim_end line) taken in
      (
        trail,
        ending,
        code,
        cc (append_assoc id trail (ending ∷ code)),
        blank,
        ends,
        (check_runtime_id-Matches id).0 good,
        fits,
      )

  pub parse-Declares :
      (source : List ℕ) → parse_container_meta source ≡ runtime_id id → Declares source id
  unfolding parse_container_meta
  parse-Declares source h =
      let (spaces, e_0, spaces_blank) = skip_split isspace source in
      let (r_1, e_1, h_1) = parse_hash_back (skip isspace source) h in
      let (gap_1, e_2, gap_1_blank) = skip_split isblank r_1 in
      let (r_2, e_3, h_2) =
        parse_container_back (after_text container_text (skip isblank r_1)) h_1 in
      let (gap_2, e_4, gap_2_blank) = skip_split isblank r_2 in
      let (r_3, e_5, h_3) = parse_colon_back (skip isblank r_2) h_2 in
      let (gap_3, e_6, gap_3_blank) = skip_split isblank r_3 in
      let (trail, ending, code, e_7, trail_blank, ends, matches, fits) =
        last_part (skip isblank r_3) h_3 in
      record {
        spaces = spaces;
        gap_1 = gap_1;
        gap_2 = gap_2;
        gap_3 = gap_3;
        trail = trail;
        ending = ending;
        code = code;
        text = cc (after_text_split container_text (skip isblank r_1) e_3);
        spaces_blank = spaces_blank;
        gap_1_blank = gap_1_blank;
        gap_2_blank = gap_2_blank;
        gap_3_blank = gap_3_blank;
        trail_blank = trail_blank;
        ending_ends = ends;
        id_matches = matches;
        id_fits = fits;
      }
